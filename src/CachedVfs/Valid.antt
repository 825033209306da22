-- ===== src/CachedVfs/Valid.antt =====
-- The invariant of the cached content, over every operation and every sequence of them.
use rewofs.Base.{
  ℕ, ◌+◌, ◌<◌, ◌^◌, ◌≡◌, List, [], ◌∷◌, String, length, arith, inl, inr, some, none, true, false,
  Bool, Bool-cases, Option, ◌==◌, if◌then◌else◌,
}
use rewofs.Base.Paths.{Paths}
use rewofs.Base.Result.{ok, or_throw, system_error, ebadf}
use rewofs.Messages.{Stat, Timespec}
use rewofs.Content.{delete_file, copy_at}
use rewofs.Content.Contract.{IsValid, delete_file-IsValid}
use rewofs.Cache.{Cache}
use rewofs.Cache
use rewofs.Vfs.{Vfs, IdDispenser}
use rewofs.Vfs.Call.{Action, ◌>>=◌, ◌>>◌, return}
use rewofs.Tree.{st}
use rewofs.CachedVfs.{
  State, File, cached_vfs, on_sub, on_cache, mkdir, rmdir, unlink, symlink, rename, chmod, utimens,
  truncate, create, open_file, close, read, write, made_directory, made_link, removed, renamed,
  changed_mode, created, fetched, written, read_through, enter, open_lazily, remember, utime_omit,
  wants_write, opened,
}
use rewofs.CachedVfs.Operations.{Operation, run, run_all, InRange, AllInRange}
use rewofs.CachedVfs.Keeps.{
  Keeps, bind, next, cache, shared, asks, gives, assign, set_st, make, store, remove_single-keeps,
}

module _ {P S : Type 0} ⦃paths : Paths P⦄ where
  made_directory-Keeps :
      (path : P) (stat parent_st : Stat) → Keeps (made_directory {S = S} path stat parent_st)
  unfolding made_directory
  made_directory-Keeps path stat parent_st =
      next (set_st (paths.parent_path path) parent_st) (next (make path) (assign path stat))

  made_link-Keeps :
      (path : P) (stat parent_st : Stat) → Keeps (made_link {S = S} path stat parent_st)
  unfolding made_link
  made_link-Keeps path stat parent_st =
      next (make path) (next (assign path stat) (set_st (paths.parent_path path) parent_st))

  removed-Keeps : (path : P) (parent_st : Stat) → Keeps (removed {S = S} path parent_st)
  unfolding removed
  removed-Keeps path parent_st =
      next (cache (Cache.remove_single path) (remove_single-keeps path))
        (set_st (paths.parent_path path) parent_st)

  renamed-Keeps :
      (old_path new_path : P) (flags : ℕ) → Keeps (renamed {S = S} old_path new_path flags)
  unfolding renamed Cache.rename Cache.exchange
  renamed-Keeps old_path new_path flags = cache _ λ c c' e v.
      let k : c'.content ≡ delete_file new_path (delete_file old_path c.content) = ground arith in
      rw k (delete_file-IsValid new_path _ (delete_file-IsValid old_path c.content v))

  changed_mode-Keeps : (path : P) (mode : ℕ) → Keeps (changed_mode {S = S} path mode)
  unfolding changed_mode
  changed_mode-Keeps path mode =
      bind (asks (λ s. Cache.get_node path s.cache))
        (λ n s e. set_st path (record (st n) { st_mode = mode }))

  enter-Keeps : (file : File P) → Keeps (enter {S = S} file)
  enter-Keeps file = record { keeps = λ s g. g }

  created-Keeps : (file : File P) (stat : Stat) → Keeps (created {S = S} file stat)
  unfolding created
  created-Keeps file stat = next (make file.path) (next (assign file.path stat) (enter-Keeps file))

  remember-Keeps : (fh subhandle : ℕ) → Keeps (remember {P = P} {S = S} fh subhandle)
  remember-Keeps fh subhandle = record { keeps = λ s g. ground arith }

  fetched-Keeps :
      (fh subhandle offset : ℕ) (ret : ℕ × List ℕ)
      → offset + length ret.1 < 2 ^ 64
      → Keeps (fetched {P = P} {S = S} fh subhandle offset ret)
  unfolding fetched
  fetched-Keeps fh subhandle offset ret small =
      bind {call = remember {P = P} {S = S} fh subhandle}
        {rest = λ path. on_cache (Cache.write path offset ret.1) >> return ret}
        (remember-Keeps fh subhandle) λ path s e. next (store path offset ret.1 small) (gives ret)

  written-Keeps :
      (path : P) (input : List ℕ) (offset res : ℕ) (stat : Stat)
      → offset + length input < 2 ^ 64
      → Keeps (written {S = S} path input offset res stat)
  unfolding written
  written-Keeps path input offset res stat small =
      next (set_st path stat) (next (store path offset input small) (gives res))

module _ {P S : Type 0} ⦃paths : Paths P⦄ (sub : Vfs P (IdDispenser × S)) where
  after_getattr :
      {B : Type 0} (path : P) {rest : Stat → Action (State P S) B}
      → ((stat : Stat) → Keeps (rest stat))
      → Keeps (on_sub (sub.getattr path) >>= rest)
  after_getattr path k = bind (shared (sub.getattr path)) (λ stat s e. k stat)

  either :
      {B : Type 0} (test : Bool) {a b : Action (State P S) B}
      → Keeps a
      → Keeps b
      → Keeps (if test then a else b)
  either true k l = k
  either false k l = l

  mkdir-Keeps : (path : P) (mode : ℕ) → Keeps (mkdir sub path mode)
  unfolding mkdir
  mkdir-Keeps path mode = next (shared (sub.mkdir path mode)) (
      after_getattr path λ stat.
        after_getattr (paths.parent_path path)
          λ parent_st. made_directory-Keeps path stat parent_st)

  symlink-Keeps : (target : String) (path : P) → Keeps (symlink sub target path)
  unfolding symlink
  symlink-Keeps target path = next (shared (sub.symlink target path)) (
      after_getattr path λ stat.
        after_getattr (paths.parent_path path) λ parent_st. made_link-Keeps path stat parent_st)

  rmdir-Keeps : (path : P) → Keeps (rmdir sub path)
  unfolding rmdir
  rmdir-Keeps path =
      next (shared (sub.rmdir path)) (after_getattr (paths.parent_path path) (removed-Keeps path))

  unlink-Keeps : (path : P) → Keeps (unlink sub path)
  unfolding unlink
  unlink-Keeps path =
      next (shared (sub.unlink path)) (after_getattr (paths.parent_path path) (removed-Keeps path))

  rename-Keeps : (old_path new_path : P) (flags : ℕ) → Keeps (rename sub old_path new_path flags)
  unfolding rename
  rename-Keeps old_path new_path flags =
      next (shared (sub.rename old_path new_path flags)) (renamed-Keeps old_path new_path flags)

  chmod-Keeps : (path : P) (mode : ℕ) → Keeps (chmod sub path mode)
  unfolding chmod
  chmod-Keeps path mode = next (shared (sub.chmod path mode)) (changed_mode-Keeps path mode)

  truncate-Keeps : (path : P) (len : ℕ) → Keeps (truncate sub path len)
  unfolding truncate
  truncate-Keeps path len = next (shared (sub.truncate path len)) (after_getattr path (set_st path))

  pub create-Keeps : (path : P) (flags mode : ℕ) → Keeps (create sub path flags mode)
  unfolding create
  create-Keeps path flags mode =
      bind (shared (sub.create path flags mode)) λ h s e. after_getattr path (created-Keeps _)

  utimens-Keeps : (path : P) (atime mtime : Timespec) → Keeps (utimens sub path atime mtime)
  unfolding utimens
  utimens-Keeps path atime mtime =
      either (mtime.tv_nsec == utime_omit) (gives tt)
        (next (shared (sub.utimens path atime mtime)) (after_getattr path (set_st path)))

  pub open_file-Keeps : (path : P) (flags : ℕ) → Keeps (open_file sub path flags)
  unfolding open_file
  open_file-Keeps path flags = elim (Bool-cases (wants_write flags)) [
    | inl e ↦ rw (e, open_file) (bind (shared (sub.open_file path flags)) λ h s e. enter-Keeps _)
    | inr e ↦ rw (e, open_file) (enter-Keeps _)
  ]

  close-Keeps : (fh : ℕ) → Keeps (close sub fh)
  unfolding close
  close-Keeps fh =
      bind (asks (opened fh))
        λ file s e. next (close_sub file.subvfs_handle) (record { keeps = λ s g. g })
    where
      close_sub :
          (h : Option ℕ)
          → Keeps {P = P} {S = S}
              (elim h [ some subhandle ↦ on_sub (sub.close subhandle) | none ↦ return tt ])
      close_sub none = gives tt
      close_sub (some subhandle) = shared (sub.close subhandle)

  open_lazily-Keeps : (file : File P) → Keeps (open_lazily sub file)
  open_lazily-Keeps file = go file.subvfs_handle
    where
      go :
          (h : Option ℕ)
          → Keeps {P = P} {S = S} (elim h [
            | some subhandle ↦ return subhandle
            | none ↦ on_sub (sub.open_file file.path file.open_flags)
          ])
      go none = shared (sub.open_file file.path file.open_flags)
      go (some subhandle) = gives subhandle

  pub write-Keeps :
      (fh : ℕ) (input : List ℕ) (offset : ℕ)
      → offset + length input < 2 ^ 64
      → Keeps (write sub fh input offset)
  unfolding write
  write-Keeps fh input offset small = bind (asks (opened fh)) λ file s e.
      bind (asks (λ s. or_throw (system_error ebadf) file.subvfs_handle)) λ h s e.
        bind (shared (sub.write h input offset)) λ res s e.
          after_getattr file.path λ stat. written-Keeps file.path input offset res stat small

  module _
      (in_place : (h m offset : ℕ) (output b : List ℕ) (s : IdDispenser × S)
        → (sub.read h output offset s).0 ≡ ok (m, b)
        → length b ≡ length output) where
    read_through-Keeps :
        (fh : ℕ) (file : File P) (output : List ℕ) (offset : ℕ)
        → offset + length output < 2 ^ 64
        → Keeps (read_through sub fh file output offset)
    unfolding read_through
    read_through-Keeps fh file output offset small = bind (open_lazily-Keeps file) λ h s e.
        bind (shared (sub.read h output offset)) λ ret s e.
          fetched-Keeps fh h offset ret (rw (in_place h ret.0 offset output ret.1 s.shared e) small)

    pub read-Keeps :
        (fh : ℕ) (output : List ℕ) (offset : ℕ)
        → offset + length output < 2 ^ 64
        → Keeps (read sub fh output offset)
    unfolding read
    read-Keeps fh output offset small = bind (asks (opened fh)) λ file s e.
        bind (asks (λ s. ok (Cache.read file.path offset (length output) s.cache)))
          λ hit s e. go file hit
      where
        go :
            (file : File P) (hit : Option (List ℕ))
            → Keeps {P = P} {S = S} (elim hit [
              | some content ↦ return (length output, copy_at content 0 output)
              | none ↦ read_through sub fh file output offset
            ])
        go file none = read_through-Keeps fh file output offset small
        go file (some content) = gives (length output, copy_at content 0 output)

    discarded :
        {A : Type 0} {call : Action (State P S) A} → Keeps call → Keeps (call >>= λ a. return tt)
    discarded k = bind k (λ a s e. gives tt)

    pub run-Keeps : (op : Operation P) → InRange op → Keeps (run (cached_vfs sub) op)
    unfolding run
    run-Keeps (Operation.mkdir path mode) i = mkdir-Keeps path mode
    run-Keeps (Operation.rmdir path) i = rmdir-Keeps path
    run-Keeps (Operation.unlink path) i = unlink-Keeps path
    run-Keeps (Operation.symlink target path) i = symlink-Keeps target path
    run-Keeps (Operation.rename old_path new_path flags) i = rename-Keeps old_path new_path flags
    run-Keeps (Operation.chmod path mode) i = chmod-Keeps path mode
    run-Keeps (Operation.utimens path atime mtime) i = utimens-Keeps path atime mtime
    run-Keeps (Operation.truncate path len) i = truncate-Keeps path len
    run-Keeps (Operation.create path flags mode) i = discarded (create-Keeps path flags mode)
    run-Keeps (Operation.open_file path flags) i = discarded (open_file-Keeps path flags)
    run-Keeps (Operation.close fh) i = close-Keeps fh
    run-Keeps (Operation.read fh output offset) i = discarded (read-Keeps fh output offset i)
    run-Keeps (Operation.write fh input offset) i = discarded (write-Keeps fh input offset i)

    -- Over a file system whose reads keep the length of the buffer, on a valid cache, every
    -- sequence of operations whose ranges end below 2 ^ 64 leaves a valid one, whatever each of
    -- them returns or throws.
    pub run_all-IsValid :
        (ops : List (Operation P)) (s : State P S)
        → AllInRange ops
        → IsValid s.cache.content
        → IsValid (run_all (cached_vfs sub) ops s).cache.content
    unfolding run_all
    run_all-IsValid [] s i v = v
    run_all-IsValid (op ∷ ops) s i v =
        run_all-IsValid ops (run (cached_vfs sub) op s).1 i.1 ((run-Keeps op i.0).keeps s v)
