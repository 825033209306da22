-- ===== src/Worker/Dispatch.antt =====
-- The table of handlers that the constructor of `Worker` fills, and `Worker::process_message`, of
-- src/rewofs/server/worker.cpp.
use rewofs.Base.{ℕ, List, [], ◌∷◌, ◌++◌, Option, none, some}
use rewofs.Base.Result.{ok, raise, system_error}
use rewofs.Vfs.Call.{Action}
use rewofs.Channel.{
  Command, MessageType, Message, ResultErrno, ResultStat, ResultReaddir, ResultReadlink, ResultRead,
  ResultWrite,
}
use rewofs.Worker.{Posix, Worker, process_errno, process_read, process_write}
use rewofs.Worker.Inspect.{Files, process_stat, process_readdir, process_readlink}

-- An answer, with the type that its frame names.
pub data Reply : Type 0 where
  errno : ResultErrno → Reply
  stat : ResultStat → Reply
  readdir : ResultReaddir → Reply
  readlink : ResultReadlink → Reply
  read : ResultRead → Reply
  write : ResultWrite → Reply

-- The answer, if it is of the type.
abbrev pub of_type : (t : MessageType) → Reply → Option (Message t)
of_type MessageType.result_errno (Reply.errno m) = some m
of_type MessageType.result_stat (Reply.stat m) = some m
of_type MessageType.result_readdir (Reply.readdir m) = some m
of_type MessageType.result_readlink (Reply.readlink m) = some m
of_type MessageType.result_read (Reply.read m) = some m
of_type MessageType.result_write (Reply.write m) = some m
of_type _ _ = none

abbrev wrapped : {A W : Type 0} → (A → Reply) → Option A × W → Option Reply × W
wrapped f (none, w) = (none, w)
wrapped f (some a, w) = (some (f a), w)

-- `operation_not_permitted`, the code of `std::unique_lock::unlock` without a mutex.
abbrev eperm : ℕ
eperm = 1

module _ {P K : Type 0} (posix : Posix P K) (files : Files P K) where
  abbrev looked : {A : Type 0} → (A → Reply) → A × K → Worker P K → Option Reply × Worker P K
  looked f r w = (some (f r.0), record w { kernel = r.1 })

  -- `none` where the handler throws.
  unfoldable pub process : Command P → Worker P K → Option Reply × Worker P K
  unfolding process_stat process_readdir process_readlink process_errno process_read process_write
  process (Command.stat path) w = looked Reply.stat (process_stat posix files path w.kernel) w
  process (Command.readdir path) w =
      looked Reply.readdir (process_readdir posix files path w.kernel) w
  process (Command.readlink path) w =
      looked Reply.readlink (process_readlink posix files path w.kernel) w
  process (Command.read fh offset size) w = wrapped Reply.read (process_read posix fh offset size w)
  process (Command.write fh offset bytes) w =
      wrapped Reply.write (process_write posix fh offset bytes w)
  process command w = wrapped Reply.errno (process_errno posix command w)

  -- The answer goes out with the id of the command; an exception goes past `run`.
  unfoldable pub process_message : ℕ → Command P → Action (Worker P K × List (ℕ × Reply)) (Unit {0})
  unfolding process
  process_message mid command s =
      let r = process command s.0 in
      elim r.0 [
        | none ↦ (raise (system_error eperm), (r.1, s.1))
        | some reply ↦ (ok tt, (r.1, s.1 ++ (mid, reply) ∷ []))
      ]
