-- ===== src/CachedVfs.antt =====
-- `CachedVfs` of src/rewofs/client/vfs.hpp and vfs.cpp: the file system over another one, with the
-- cache of one client. The other file system is the parameter `sub`; it and this one take their
-- handles from the one dispenser, so both work on it. The children prove what the operations do.
pub mod Sub
pub mod Locked
pub mod Namespace
pub mod Handles
pub mod Operations
pub mod Errors
pub mod Keeps
pub mod Valid
pub mod ReadWrite
pub mod Rename
pub mod Sample
mod Tests
mod NameTests
use rewofs.Base.{ℕ, true, false, List, none, some, String, length, if◌then◌else◌, ◌==◌}
use rewofs.Base.Assoc.{find, put, erase, emplace}
use rewofs.Base.Paths.{Paths}
use rewofs.Base.Result.{ok, system_error, ebadf, or_throw}
use rewofs.Messages.{Stat, Timespec}
use rewofs.Content.{copy_at}
use rewofs.Tree.{st, children}
use rewofs.Cache.{Cache}
use rewofs.Cache
use rewofs.Vfs.{Vfs, IdDispenser, get_id}
use rewofs.Vfs.Call.{Action, ◌>>=◌, ◌>>◌, return, ask}
pub use rewofs.ClientState.{
  File, State, has_bit, wants_write, rename_exchange, utime_omit, entries, on_sub, on_cache,
  find_file, opened, enter, forget, remember,
}

-- What the operations do in their second part, under the lock.
module _ {P S : Type 0} ⦃paths : Paths P⦄ where
  open paths use {parent_path}

  unfoldable pub made_directory : P → Stat → Stat → Action (State P S) (Unit {0})
  unfolding Cache.set_node_st Cache.make_node Cache.assign_st
  made_directory path stat parent_st = do
    on_cache (Cache.set_node_st (parent_path path) parent_st)
    on_cache (Cache.make_node path)
    on_cache (λ c. ok (Cache.assign_st path stat c))

  unfoldable pub made_link : P → Stat → Stat → Action (State P S) (Unit {0})
  unfolding Cache.set_node_st Cache.make_node Cache.assign_st
  made_link link_path stat parent_st = do
    on_cache (Cache.make_node link_path)
    on_cache (λ c. ok (Cache.assign_st link_path stat c))
    on_cache (Cache.set_node_st (parent_path link_path) parent_st)

  unfoldable pub removed : P → Stat → Action (State P S) (Unit {0})
  unfolding Cache.set_node_st Cache.remove_single
  removed path parent_st = do
    on_cache (Cache.remove_single path)
    on_cache (Cache.set_node_st (parent_path path) parent_st)

  unfoldable pub renamed : P → P → ℕ → Action (State P S) (Unit {0})
  unfolding Cache.exchange Cache.rename
  renamed old_path new_path flags = on_cache (λ c.
      if rename_exchange flags
      then Cache.exchange old_path new_path c
      else Cache.rename old_path new_path c)

  unfoldable pub changed_mode : P → ℕ → Action (State P S) (Unit {0})
  unfolding Cache.get_node Cache.set_node_st
  changed_mode path mode = do
    n ← ask (λ s. Cache.get_node path s.cache)
    on_cache (Cache.set_node_st path (record (st n) { st_mode = mode }))

  unfoldable pub created : File P → Stat → Action (State P S) ℕ
  unfolding Cache.make_node Cache.assign_st
  created file stat = do
    on_cache (Cache.make_node file.path)
    on_cache (λ c. ok (Cache.assign_st file.path stat c))
    enter file

  -- The whole of the buffer is cached, whatever count the other file system has returned.
  unfoldable pub fetched : ℕ → ℕ → ℕ → ℕ × List ℕ → Action (State P S) (ℕ × List ℕ)
  unfolding Cache.write find put
  fetched fh subhandle offset ret = do
    path ← remember fh subhandle
    on_cache (Cache.write path offset ret.1)
    return ret

  unfoldable pub written : P → List ℕ → ℕ → ℕ → Stat → Action (State P S) ℕ
  unfolding Cache.write Cache.set_node_st
  written path input offset res stat = do
    on_cache (Cache.set_node_st path stat)
    on_cache (Cache.write path offset input)
    return res

module _ {P S : Type 0} ⦃paths : Paths P⦄ (sub : Vfs P (IdDispenser × S)) where
  open paths use {parent_path}

  unfoldable pub getattr : P → Action (State P S) Stat
  unfolding Cache.get_node
  getattr path = do n ← ask (λ s. Cache.get_node path s.cache); return (st n)

  unfoldable pub readdir : P → Action (State P S) (List (String × Stat))
  unfolding Cache.get_node
  readdir path = do n ← ask (λ s. Cache.get_node path s.cache); return (entries (children n))

  unfoldable pub readlink : P → Action (State P S) String
  readlink path = on_sub (sub.readlink path)

  unfoldable pub mkdir : P → ℕ → Action (State P S) (Unit {0})
  unfolding made_directory
  mkdir path mode = do
    on_sub (sub.mkdir path mode)
    stat ← on_sub (sub.getattr path)
    parent_st ← on_sub (sub.getattr (parent_path path))
    made_directory path stat parent_st

  unfoldable pub rmdir : P → Action (State P S) (Unit {0})
  unfolding removed
  rmdir path = do
    on_sub (sub.rmdir path)
    parent_st ← on_sub (sub.getattr (parent_path path))
    removed path parent_st

  unfoldable pub unlink : P → Action (State P S) (Unit {0})
  unfolding removed
  unlink path = do
    on_sub (sub.unlink path)
    parent_st ← on_sub (sub.getattr (parent_path path))
    removed path parent_st

  unfoldable pub symlink : String → P → Action (State P S) (Unit {0})
  unfolding made_link
  symlink target link_path = do
    on_sub (sub.symlink target link_path)
    stat ← on_sub (sub.getattr link_path)
    parent_st ← on_sub (sub.getattr (parent_path link_path))
    made_link link_path stat parent_st

  unfoldable pub rename : P → P → ℕ → Action (State P S) (Unit {0})
  unfolding renamed
  rename old_path new_path flags = do
    on_sub (sub.rename old_path new_path flags)
    renamed old_path new_path flags

  unfoldable pub chmod : P → ℕ → Action (State P S) (Unit {0})
  unfolding changed_mode
  chmod path mode = do on_sub (sub.chmod path mode); changed_mode path mode

  -- `tv` is the pair of the access and the modification time.
  unfoldable pub utimens : P → Timespec → Timespec → Action (State P S) (Unit {0})
  unfolding Cache.set_node_st
  utimens path atime mtime = if mtime.tv_nsec == utime_omit then return tt else do
    on_sub (sub.utimens path atime mtime)
    stat ← on_sub (sub.getattr path)
    on_cache (Cache.set_node_st path stat)

  unfoldable pub truncate : P → ℕ → Action (State P S) (Unit {0})
  unfolding Cache.set_node_st
  truncate path len = do
    on_sub (sub.truncate path len)
    stat ← on_sub (sub.getattr path)
    on_cache (Cache.set_node_st path stat)

  unfoldable pub create : P → ℕ → ℕ → Action (State P S) ℕ
  unfolding created
  create path flags mode = do
    subvfs_handle ← on_sub (sub.create path flags mode)
    stat ← on_sub (sub.getattr path)
    created (record { open_flags = flags; subvfs_handle = some subvfs_handle; path = path }) stat

  unfoldable pub open_file : P → ℕ → Action (State P S) ℕ
  unfolding get_id emplace
  open_file path flags = elim (wants_write flags) [
    | true ↦ do
      subvfs_handle ← on_sub (sub.open_file path flags)
      enter (record { open_flags = flags; subvfs_handle = some subvfs_handle; path = path })
    | false ↦ enter (record { open_flags = flags; subvfs_handle = none; path = path })
  ]

  unfoldable pub close : ℕ → Action (State P S) (Unit {0})
  unfolding find erase
  close fh = do
    file ← ask (opened fh)
    elim file.subvfs_handle [ some subhandle ↦ on_sub (sub.close subhandle) | none ↦ return tt ]
    forget fh

  -- The handle that a read works with: a file that is open lazily is opened now.
  abbrev pub open_lazily : File P → Action (State P S) ℕ
  open_lazily file = elim file.subvfs_handle [
    | some subhandle ↦ return subhandle
    | none ↦ on_sub (sub.open_file file.path file.open_flags)
  ]

  -- A cache miss.
  unfoldable pub read_through : ℕ → File P → List ℕ → ℕ → Action (State P S) (ℕ × List ℕ)
  unfolding fetched
  read_through fh file output offset = do
    subhandle ← open_lazily file
    ret ← on_sub (sub.read subhandle output offset)
    fetched fh subhandle offset ret

  unfoldable pub read : ℕ → List ℕ → ℕ → Action (State P S) (ℕ × List ℕ)
  unfolding Cache.read read_through copy_at find
  read fh output offset = do
    file ← ask (opened fh)
    hit ← ask (λ s. ok (Cache.read file.path offset (length output) s.cache))
    elim hit [
      | some content ↦ return (length output, copy_at content 0 output)
      | none ↦ read_through fh file output offset
    ]

  unfoldable pub write : ℕ → List ℕ → ℕ → Action (State P S) ℕ
  unfolding written find
  write fh input offset = do
    file ← ask (opened fh)
    subhandle ← ask (λ s. or_throw (system_error ebadf) file.subvfs_handle)
    res ← on_sub (sub.write subhandle input offset)
    stat ← on_sub (sub.getattr file.path)
    written file.path input offset res stat

  -- The table of the class's virtual functions.
  abbrev pub cached_vfs : Vfs P (State P S)
  cached_vfs = record {
    getattr = getattr;
    readdir = readdir;
    readlink = readlink;
    mkdir = mkdir;
    rmdir = rmdir;
    unlink = unlink;
    symlink = symlink;
    rename = rename;
    chmod = chmod;
    utimens = utimens;
    truncate = truncate;
    create = create;
    open_file = open_file;
    close = close;
    read = read;
    write = write;
  }
