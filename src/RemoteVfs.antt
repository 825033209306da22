-- ===== src/RemoteVfs.antt =====
-- `RemoteVfs` of src/rewofs/client/vfs.hpp and vfs.cpp: every operation is a command to the server, and
-- a read or a write one for each fragment. The channel is a parameter. A path goes over the wire as the
-- bytes of its name, here as itself.
pub mod Fragments
pub mod Read
pub mod Pwrite
pub mod Write
pub mod InPlace
mod Tests
mod WriteTests
use rewofs.Base.{
  ℕ, zero, suc, ◌+◌, ◌-◌, ◌*◌, ◌%◌, ◌^◌, min, Bool, true, false, List, [], ◌∷◌, map, Option, none,
  some, String, length, take, drop, ltb, leb, if◌then◌else◌, ◌==◌,
}
use rewofs.Base.Result.{Result, ok, raise, system_error, undefined, einval}
use rewofs.Messages.{Stat, no_stat, Timespec}
use rewofs.Content.{copy_at, add64}
use rewofs.Vfs.{Vfs, IdDispenser, get_id}
use rewofs.Vfs.Call.{Action, ◌>>=◌, ◌>>◌, return, throw}
use rewofs.Channel.{
  Channel, Command, MessageType, Message, ResultErrno, ResultRead, ResultWrite, wait,
  single_command,
}
use rewofs.Channel

-- `IVfs::IO_FRAGMENT_SIZE`
abbrev pub io_fragment_size : ℕ
io_fragment_size = 32 * 1024

-- `x < 0` of a signed 64-bit number.
abbrev pub is_negative : ℕ → Bool
is_negative x = leb (2 ^ 63) x

-- The `while` loop of `read` and `write`: the offset and the size of each fragment. Every fragment has a
-- byte at least, so that as much fuel as there are bytes is enough.
unfoldable pub fragments : ℕ → ℕ → ℕ → List (ℕ × ℕ)
fragments zero block_ofs size = []
fragments (suc fuel) block_ofs size =
    let block_size = min (size - block_ofs) io_fragment_size in
    let rest = fragments fuel (block_ofs + block_size) size in
    if ltb block_ofs size then (block_ofs, block_size) ∷ rest else []

abbrev pub filled : String × Option Stat → String × Stat
filled (k, some st) = (k, st)
filled (k, none) = (k, no_stat)

module _ {P T : Type 0} (channel : Channel P T) where
  unfoldable pub send_reads : ℕ → ℕ → List (ℕ × ℕ) → T → List ℕ × T
  send_reads fh offset [] s = ([], s)
  send_reads fh offset ((ofs, size) ∷ rest) s =
      let sent = channel.add_command (Command.read fh (add64 offset ofs) size) s in
      let later = send_reads fh offset rest sent.1 in (sent.0 ∷ later.0, later.1)

  unfoldable pub send_writes : ℕ → ℕ → List ℕ → List (ℕ × ℕ) → T → List ℕ × T
  send_writes fh offset input [] s = ([], s)
  send_writes fh offset input ((ofs, size) ∷ rest) s =
      let sent =
        channel.add_command (Command.write fh (add64 offset ofs) (take size (drop ofs input))) s in
      let later = send_writes fh offset input rest sent.1 in (sent.0 ∷ later.0, later.1)

  -- The answers in the order of the fragments. Each is copied behind the ones before it; a copy over the
  -- end of the buffer is not defined.
  unfoldable pub receive_reads : List ℕ → ℕ → List ℕ → Action T (ℕ × List ℕ)
  unfolding wait copy_at
  receive_reads [] read_size output = return (read_size, output)
  receive_reads (mid ∷ mids) read_size output = do
    message ← wait channel MessageType.result_read mid
    elim (is_negative message.res) [
      | true ↦ throw (system_error message.res_errno)
      | false ↦ elim (leb (read_size + length message.bytes) (length output)) [
        | false ↦ throw undefined
        | true ↦
            receive_reads mids (add64 read_size (length message.bytes))
              (copy_at message.bytes read_size output)
      ]
    ]

  unfoldable pub receive_writes : List ℕ → ℕ → Action T ℕ
  unfolding wait
  receive_writes [] write_size = return write_size
  receive_writes (mid ∷ mids) write_size = do
    message ← wait channel MessageType.result_write mid
    elim (is_negative message.res) [
      | true ↦ throw (system_error message.res_errno)
      | false ↦ receive_writes mids (add64 write_size message.res)
    ]

module _ {P T : Type 0} (channel : Channel P T) where
  -- A command works on the channel, and not on the dispenser.
  abbrev on_channel : {A : Type 0} → Action T A → Action (IdDispenser × T) A
  on_channel call s = let r = call s.1 in (r.0, (s.0, r.1))

  abbrev pub command_errno : Command P → Action (IdDispenser × T) (Unit {0})
  command_errno command = do
    message ← on_channel (single_command channel MessageType.result_errno command)
    if message.res_errno == 0 then return tt else throw (system_error message.res_errno)

  unfoldable pub getattr : P → Action (IdDispenser × T) Stat
  unfolding single_command
  getattr path = do
    message ← on_channel (single_command channel MessageType.result_stat (Command.stat path))
    if message.res_errno == 0 then return message.st else throw (system_error message.res_errno)

  unfoldable pub readdir : P → Action (IdDispenser × T) (List (String × Stat))
  unfolding single_command
  readdir path = do
    message ← on_channel (single_command channel MessageType.result_readdir (Command.readdir path))
    if message.res_errno == 0
        then return (map filled message.items)
        else throw (system_error message.res_errno)

  unfoldable pub readlink : P → Action (IdDispenser × T) String
  unfolding single_command
  readlink path = do
    message ←
        on_channel (single_command channel MessageType.result_readlink (Command.readlink path))
    if message.res_errno == 0 then return message.path else throw (system_error message.res_errno)

  unfoldable pub truncate : P → ℕ → Action (IdDispenser × T) (Unit {0})
  unfolding single_command
  truncate path len =
      if is_negative len
      then throw (system_error einval)
      else command_errno (Command.truncate path len)

  unfoldable pub open_common : P → ℕ → Option ℕ → Action (IdDispenser × T) ℕ
  unfolding single_command get_id
  open_common path flags mode s =
      let r = get_id s.0 in
      (command_errno (Command.open_file path r.0 flags mode) >> return r.0) (r.1, s.1)

  unfoldable pub read : ℕ → List ℕ → ℕ → Action (IdDispenser × T) (ℕ × List ℕ)
  unfolding send_reads receive_reads fragments
  read fh output offset s =
      let size = length output in
      let sent = send_reads channel fh offset (fragments size 0 size) s.1 in
      on_channel (receive_reads channel sent.0 0 output) (s.0, sent.1)

  unfoldable pub write : ℕ → List ℕ → ℕ → Action (IdDispenser × T) ℕ
  unfolding send_writes receive_writes fragments
  write fh input offset s =
      let size = length input in
      let sent = send_writes channel fh offset input (fragments size 0 size) s.1 in
      on_channel (receive_writes channel sent.0 0) (s.0, sent.1)

  -- The class's virtual functions; those not above are one command each, and an errno back.
  unfoldable pub remote_vfs : Vfs P (IdDispenser × T)
  unfolding getattr readdir readlink truncate open_common read write single_command
  remote_vfs = record {
    getattr = getattr;
    readdir = readdir;
    readlink = readlink;
    mkdir = λ path mode. command_errno (Command.mkdir path mode);
    rmdir = λ path. command_errno (Command.rmdir path);
    unlink = λ path. command_errno (Command.unlink path);
    symlink = λ target link_path. command_errno (Command.symlink link_path target);
    rename = λ old_path new_path flags. command_errno (Command.rename old_path new_path flags);
    chmod = λ path mode. command_errno (Command.chmod path mode);
    utimens = λ path atime mtime. command_errno (Command.utime path mtime);
    truncate = truncate;
    create = λ path flags mode. open_common path flags (some mode);
    open_file = λ path flags. open_common path flags none;
    close = λ fh. command_errno (Command.close fh);
    read = read;
    write = write;
  }
