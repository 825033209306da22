-- ===== src/Fuse/Stack.antt =====
-- The client's whole stack, FUSE over `CachedVfs` over `RemoteVfs`: commands that the server refuses, or
-- does not answer.
use rewofs.Base.{ℕ, ◌≡◌, refl, ap, Option, none, some}
use rewofs.Base.Paths.{Paths}
use rewofs.Base.Result.{Result, raise, system_error, ehostunreach}
use rewofs.Vfs.{IdDispenser, get_id}
use rewofs.Vfs.Call.{return, then_call_raise}
use rewofs.Channel.{Channel, Command, MessageType, single_command, wait}
use rewofs.RemoteVfs.{remote_vfs}
use rewofs.RemoteVfs
use rewofs.CachedVfs.{State, cached_vfs}
use rewofs.CachedVfs.Operations.{Operation, run}
use rewofs.Fuse.{with_bit, s_ifdir_bit}
use rewofs.Fuse.Requests.{Request, serve}
use rewofs.Fuse.Refusals.{Issues, Refused, serve_raise}

-- The command that a request on a path sends; `create` and `open` take a handle from the dispenser.
abbrev pub command_of : {P : Type 0} → Request P → IdDispenser → Option (Command P)
command_of (Request.mkdir path mode) d = some (Command.mkdir path (with_bit s_ifdir_bit mode))
command_of (Request.rmdir path) d = some (Command.rmdir path)
command_of (Request.unlink path) d = some (Command.unlink path)
command_of (Request.symlink target link_path) d = some (Command.symlink link_path target)
command_of (Request.rename old_path new_path flags) d =
    some (Command.rename old_path new_path flags)
command_of (Request.chmod path mode) d = some (Command.chmod path mode)
command_of (Request.truncate path len) d = some (Command.truncate path len)
command_of (Request.create path mode fi) d =
    some (Command.open_file path (get_id d).0 fi.flags (some mode))
command_of (Request.utimens path atime mtime) d = some (Command.utime path mtime)
command_of (Request.open_file path fi) d = some (Command.open_file path (get_id d).0 fi.flags none)
command_of _ d = none

module _ {P T : Type 0} (channel : Channel P T) where
  -- The command is answered with the errno, or the wait for its answer throws it.
  abbrev pub Fails : ℕ → Option (Command P) → T → Type 0
  Fails e none t = ⊥
  Fails e (some c) t =
      (d : IdDispenser) → (RemoteVfs.command_errno channel c (d, t)).0 ≡ raise (system_error e)

  open_common_raise :
      (path : P) (flags e : ℕ) (mode : Option ℕ) (d : IdDispenser) (t : T)
      → Fails e (some (Command.open_file path (get_id d).0 flags mode)) t
      → (RemoteVfs.open_common channel path flags mode (d, t)).0 ≡ raise (system_error e)
  unfolding RemoteVfs.open_common
  open_common_raise path flags e mode d t f =
      ap (λ (z : Result ℕ × (IdDispenser × T)). z.0)
        (then_call_raise
          (RemoteVfs.command_errno channel (Command.open_file path (get_id d).0 flags mode)
            ((get_id d).1, t))
          (λ u. return (get_id d).0) (system_error e) (f (get_id d).1))

  remote_raise :
      (r : Request P) (op : Operation P) (d : IdDispenser) (t : T) (e : ℕ)
      → Issues r op
      → Fails e (command_of r d) t
      → (run (remote_vfs channel) op (d, t)).0 ≡ raise (system_error e)
  unfolding run remote_vfs RemoteVfs.truncate
  remote_raise (Request.mkdir path mode) op d t e i f = rw i (f d)
  remote_raise (Request.rmdir path) op d t e i f = rw i (f d)
  remote_raise (Request.unlink path) op d t e i f = rw i (f d)
  remote_raise (Request.symlink target link_path) op d t e i f = rw i (f d)
  remote_raise (Request.rename old_path new_path flags) op d t e i f = rw i (f d)
  remote_raise (Request.chmod path mode) op d t e i f = rw i (f d)
  remote_raise (Request.truncate path len) op d t e i f = rw i.0 (rw i.1 (f d))
  remote_raise (Request.create path mode fi) op d t e i f = rw i (
      ap (λ (z : Result (Unit {0}) × (IdDispenser × T)). z.0)
        (then_call_raise (RemoteVfs.open_common channel path fi.flags (some mode) (d, t))
          (λ h. return tt) (system_error e) (open_common_raise path fi.flags e (some mode) d t f)))
  remote_raise (Request.getattr path) op d t e i f = absurd i
  remote_raise (Request.readdir path) op d t e i f = absurd i
  remote_raise (Request.readlink path dst sz) op d t e i f = absurd i
  remote_raise (Request.utimens path atime mtime) op d t e i f = rw i.0 (f d)
  remote_raise (Request.open_file path fi) op d t e i f = rw i.0 (
      ap (λ (z : Result (Unit {0}) × (IdDispenser × T)). z.0)
        (then_call_raise (RemoteVfs.open_common channel path fi.flags none (d, t)) (λ h. return tt)
          (system_error e) (open_common_raise path fi.flags e none d t f)))
  remote_raise (Request.release fi) op d t e i f = absurd i
  remote_raise (Request.read output offset fi) op d t e i f = absurd i
  remote_raise (Request.write input offset fi) op d t e i f = absurd i

  -- No answer comes before the timeout.
  abbrev IsSilent : Type 0
  IsSilent = (t : MessageType) (mid : ℕ) (s : T) → (channel.wait_for_result t mid s).0 ≡ none

  silent_single :
      (c : Command P) (s : T)
      → IsSilent
      → (single_command channel MessageType.result_errno c s).0 ≡ raise (system_error ehostunreach)
  unfolding single_command wait
  silent_single c s silent =
      let sent : ℕ × T = channel.add_command c s in
      rw (silent MessageType.result_errno sent.0 sent.1, wait, single_command) refl

  silent_command :
      (c : Command P) (s : IdDispenser × T)
      → IsSilent
      → (RemoteVfs.command_errno channel c s).0 ≡ raise (system_error ehostunreach)
  silent_command c s silent = rw (silent_single c s.1 silent, RemoteVfs.command_errno)

  silent-Fails :
      (r : Request P) (op : Operation P) (d : IdDispenser) (t : T)
      → IsSilent
      → Issues r op
      → Fails ehostunreach (command_of r d) t
  silent-Fails (Request.mkdir path mode) op d t silent i =
      λ z. silent_command (Command.mkdir path (with_bit s_ifdir_bit mode)) (z, t) silent
  silent-Fails (Request.rmdir path) op d t silent i =
      λ z. silent_command (Command.rmdir path) (z, t) silent
  silent-Fails (Request.unlink path) op d t silent i =
      λ z. silent_command (Command.unlink path) (z, t) silent
  silent-Fails (Request.symlink target link_path) op d t silent i =
      λ z. silent_command (Command.symlink link_path target) (z, t) silent
  silent-Fails (Request.rename old_path new_path flags) op d t silent i =
      λ z. silent_command (Command.rename old_path new_path flags) (z, t) silent
  silent-Fails (Request.chmod path mode) op d t silent i =
      λ z. silent_command (Command.chmod path mode) (z, t) silent
  silent-Fails (Request.truncate path len) op d t silent i =
      λ z. silent_command (Command.truncate path len) (z, t) silent
  silent-Fails (Request.create path mode fi) op d t silent i =
      λ z. silent_command (Command.open_file path (get_id d).0 fi.flags (some mode)) (z, t) silent
  silent-Fails (Request.getattr path) op d t silent i = i
  silent-Fails (Request.readdir path) op d t silent i = i
  silent-Fails (Request.readlink path dst sz) op d t silent i = i
  silent-Fails (Request.utimens path atime mtime) op d t silent i =
      λ z. silent_command (Command.utime path mtime) (z, t) silent
  silent-Fails (Request.open_file path fi) op d t silent i =
      λ z. silent_command (Command.open_file path (get_id d).0 fi.flags none) (z, t) silent
  silent-Fails (Request.release fi) op d t silent i = i
  silent-Fails (Request.read output offset fi) op d t silent i = i
  silent-Fails (Request.write input offset fi) op d t silent i = i

module _ {P T : Type 0} ⦃paths : Paths P⦄ (channel : Channel P T) where
  -- A request on a path whose command fails with an errno is refused with it.
  pub serve-Fails :
      (r : Request P) (op : Operation P) (s : State P T) (e : ℕ)
      → Issues r op
      → Fails channel e (command_of r s.shared.0) s.shared.1
      → Refused (remote_vfs channel) e (serve (cached_vfs (remote_vfs channel)) r s) s
  serve-Fails r op s e i f =
      serve_raise (remote_vfs channel) r op s e i
        (remote_raise channel r op s.shared.0 s.shared.1 e i f)

  -- A request to make, remove, link, rename, change (chmod, truncate to a size that is not negative,
  -- utimens with a modification time), create or open for writing the file at a path, to a server that
  -- does not answer in time, is answered with -EHOSTUNREACH, and leaves the cache and the table of opened
  -- files as they were.
  pub serve_unreachable :
      (r : Request P) (op : Operation P) (s : State P T)
      → IsSilent channel
      → Issues r op
      → Refused (remote_vfs channel) ehostunreach (serve (cached_vfs (remote_vfs channel)) r s) s
  serve_unreachable r op s silent i =
      serve-Fails r op s ehostunreach i (silent-Fails channel r op s.shared.0 s.shared.1 silent i)
