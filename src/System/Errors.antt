-- ===== src/System/Errors.antt =====
-- An errno of the server's POSIX call reaches the program that called FUSE.
use rewofs.Base.{
  ℕ, ◌+◌, ◌%◌, ◌^◌, ◌≡◌, true, false, List, [], ◌∷◌, ◌++◌, Option, none, some, ℕ_discrete, ◌==◌,
  arith,
}
use rewofs.Base.Assoc.{find}
use rewofs.Base.Paths.{Paths}
use rewofs.Base.Result.{ok}
use rewofs.Channel.{Command, MessageType, ResultErrno, single_command, wait}
use rewofs.RemoteVfs.{remote_vfs}
use rewofs.RemoteVfs
use rewofs.CachedVfs.{State, cached_vfs, utime_omit}
use rewofs.Messages.{no_time}
use rewofs.CachedVfs.Operations.{Operation}
use rewofs.Fuse.Requests.{Request, serve}
use rewofs.Fuse.Refusals.{Issues, Refused}
use rewofs.Fuse.Stack.{command_of, Fails, serve-Fails}
use rewofs.Worker.{Posix, Worker, failed, process_errno, process_open}
use rewofs.Worker.Inspect.{Files}
use rewofs.Worker.Dispatch.{Reply, process, process_message}
use rewofs.System.{Network, deliver, collect, network}

-- The call of POSIX that a command comes to fails with the errno.
abbrev Refuses : {P K : Type 0} → Posix P K → ℕ → Command P → K → Type 0
Refuses posix e (Command.mkdir path mode) k =
    (posix.mkdir (posix.map_path path) mode k).0 ≡ failed e
Refuses posix e (Command.rmdir path) k = (posix.rmdir (posix.map_path path) k).0 ≡ failed e
Refuses posix e (Command.unlink path) k = (posix.unlink (posix.map_path path) k).0 ≡ failed e
Refuses posix e (Command.symlink link_path target) k =
    (posix.symlink target (posix.map_path link_path) k).0 ≡ failed e
Refuses posix e (Command.rename old_path new_path flags) k =
    (posix.renameat2 (posix.map_path old_path) (posix.map_path new_path) flags k).0 ≡ failed e
Refuses posix e (Command.chmod path mode) k =
    (posix.chmod (posix.map_path path) mode k).0 ≡ failed e
Refuses posix e (Command.truncate path len) k =
    (posix.truncate (posix.map_path path) len k).0 ≡ failed e
Refuses posix e (Command.open_file path fh flags mode) k =
    (posix.open_file (posix.map_path path) flags mode k).0 ≡ failed e
Refuses posix e (Command.utime path mtime) k =
    (posix.utimensat (posix.map_path path) (record no_time { tv_nsec = utime_omit }) mtime k).0
    ≡ failed e
Refuses posix e _ k = ⊥

abbrev RefusesSome : {P K : Type 0} → Posix P K → ℕ → Option (Command P) → K → Type 0
RefusesSome posix e none k = ⊥
RefusesSome posix e (some c) k = Refuses posix e c k

find-append_fresh :
    {V : Type 0} (k : ℕ) (v : V) (m : List (ℕ × V))
    → find ℕ_discrete k m ≡ none
    → find ℕ_discrete k (m ++ (k, v) ∷ []) ≡ some v
unfolding find
find-append_fresh k v [] h = ground arith
find-append_fresh k v ((j, w) ∷ m) h = ground (arith, find-append_fresh k v m)

module _ {P K : Type 0} (posix : Posix P K) (files : Files P K) where
  process-Refuses :
      (e : ℕ) (c : Command P) (w : Worker P K)
      → Refuses posix e c w.kernel
      → (process posix files c w).0 ≡ some (Reply.errno (record { res_errno = e }))
  unfolding process process_errno process_open
  process-Refuses e (Command.mkdir path mode) w h = rw h
  process-Refuses e (Command.rmdir path) w h = rw h
  process-Refuses e (Command.unlink path) w h = rw h
  process-Refuses e (Command.symlink link_path target) w h = rw h
  process-Refuses e (Command.rename old_path new_path flags) w h = rw h
  process-Refuses e (Command.chmod path mode) w h = rw h
  process-Refuses e (Command.truncate path len) w h = rw h
  process-Refuses e (Command.open_file path fh flags mode) w h = rw (h, process_open)
  process-Refuses e (Command.stat path) w h = absurd h
  process-Refuses e (Command.readdir path) w h = absurd h
  process-Refuses e (Command.readlink path) w h = absurd h
  process-Refuses e (Command.utime path mtime) w h = rw h
  process-Refuses e (Command.close fh) w h = absurd h
  process-Refuses e (Command.read fh offset size) w h = absurd h
  process-Refuses e (Command.write fh offset bytes) w h = absurd h

  abbrev answered : Command P → ResultErrno → Network P K → Network P K
  answered c r s = record {
    next_id = (s.next_id + 1) % 2 ^ 64;
    alive = true;
    worker = (process posix files c s.worker).1;
    sent = s.sent ++ (s.next_id, Reply.errno r) ∷ [];
  }

  deliver-answered :
      (c : Command P) (s : Network P K) (r : ResultErrno)
      → s.alive ≡ true
      → (process posix files c s.worker).0 ≡ some (Reply.errno r)
      → deliver posix files c s ≡ (s.next_id, answered c r s)
  unfolding deliver process_message
  deliver-answered c s r alive h = rw (deliver, alive, process_message, h)

  wait-answered :
      (c : Command P) (s : Network P K) (r : ResultErrno)
      → find ℕ_discrete s.next_id s.sent ≡ none
      → (wait (network posix files) MessageType.result_errno s.next_id (answered c r s)).0 ≡ ok r
  unfolding wait collect
  wait-answered c s r fresh =
      rw (wait, collect, find-append_fresh s.next_id (Reply.errno r) s.sent fresh)

  -- The answer that a handler gives is the one that the client waits for.
  single_command-answered :
      (c : Command P) (s : Network P K) (r : ResultErrno)
      → s.alive ≡ true
      → find ℕ_discrete s.next_id s.sent ≡ none
      → (process posix files c s.worker).0 ≡ some (Reply.errno r)
      → (single_command (network posix files) MessageType.result_errno c s).0 ≡ ok r
  unfolding single_command
  single_command-answered c s r alive fresh h =
      rw (deliver-answered c s r alive h) (wait-answered c s r fresh)

  answered-Fails :
      (e : ℕ) (c : Option (Command P)) (s : Network P K)
      → (e == 0) ≡ false
      → s.alive ≡ true
      → find ℕ_discrete s.next_id s.sent ≡ none
      → RefusesSome posix e c s.worker.kernel
      → Fails (network posix files) e c s
  answered-Fails e none s ne alive fresh h = absurd h
  answered-Fails e (some c) s ne alive fresh h = λ d. rw (
    single_command-answered c s (record { res_errno = e }) alive fresh
        (process-Refuses e c s.worker h),
    RemoteVfs.command_errno,
    ne,
  )

module _ {P K : Type 0} ⦃paths : Paths P⦄ (posix : Posix P K) (files : Files P K) where
  -- With a server that is up and a message id that no answer still has: where the call of POSIX that a
  -- request comes to fails on the server with an errno `e` other than 0, FUSE answers `-e`, and leaves the
  -- cache and the table of opened files as they were. The request is one to make, remove, link, rename,
  -- change (chmod, truncate to a size that is not negative, utimens with a modification time), create or
  -- open for writing the file at a path.
  pub serve-Refused :
      (r : Request P) (op : Operation P) (s : State P (Network P K)) (e : ℕ)
      → (e == 0) ≡ false
      → s.shared.1.alive ≡ true
      → find ℕ_discrete s.shared.1.next_id s.shared.1.sent ≡ none
      → Issues r op
      → RefusesSome posix e (command_of r s.shared.0) s.shared.1.worker.kernel
      → Refused
          (remote_vfs (network posix files))
          e
          (serve (cached_vfs (remote_vfs (network posix files))) r s)
          s
  serve-Refused r op s e ne alive fresh i h =
      serve-Fails (network posix files) r op s e i
        (answered-Fails posix files e (command_of r s.shared.0) s.shared.1 ne alive fresh h)
