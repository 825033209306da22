-- ===== src/Channel.antt =====
-- The messages of src/rewofs/messages/messages.fbs, and the channel that carries them: `Serializer` and
-- `Deserializer` of src/rewofs/transport.hpp as `SingleComm` of src/rewofs/client/transport.hpp and
-- `RemoteVfs` call them. Every number is the bit pattern of its field.
use rewofs.Base.{ℕ, List, String, Option, none, some}
use rewofs.Base.Result.{ok, raise, system_error, ehostunreach}
use rewofs.Messages.{Stat, Timespec}
use rewofs.Vfs.Call.{Action}

pub data Command (P : Type 0) : Type 0 where
  stat : P → Command P
  readdir : P → Command P
  readlink : P → Command P
  mkdir : P → ℕ → Command P
  rmdir : P → Command P
  unlink : P → Command P
  symlink : P → String → Command P
  rename : P → P → ℕ → Command P
  chmod : P → ℕ → Command P
  utime : P → Timespec → Command P
  truncate : P → ℕ → Command P
  -- The path, the handle, the flags and the mode.
  open_file : P → ℕ → ℕ → Option ℕ → Command P
  close : ℕ → Command P
  read : ℕ → ℕ → ℕ → Command P
  write : ℕ → ℕ → List ℕ → Command P

pub record ResultErrno : Type 0 where
  pub res_errno : ℕ

pub record ResultStat : Type 0 where
  pub res_errno : ℕ
  pub st : Stat

-- An entry without attributes is one that the server could not read them of.
pub record ResultReaddir : Type 0 where
  pub res_errno : ℕ
  pub items : List (String × Option Stat)

pub record ResultReadlink : Type 0 where
  pub res_errno : ℕ
  pub path : String

pub record ResultRead : Type 0 where
  pub res : ℕ
  pub res_errno : ℕ
  pub bytes : List ℕ

pub record ResultWrite : Type 0 where
  pub res : ℕ
  pub res_errno : ℕ

-- The answer to a `CommandPreread`, which only the background loader sends.
pub record ResultPreread (P : Type 0) : Type 0 where
  pub res : ℕ
  pub res_errno : ℕ
  pub path : P
  pub offset : ℕ
  pub bytes : List ℕ

-- The enumeration of the answers' types, and the table behind each.
pub data MessageType : Type 0 where
  result_errno : MessageType
  result_stat : MessageType
  result_readdir : MessageType
  result_readlink : MessageType
  result_read : MessageType
  result_write : MessageType

abbrev pub Message : MessageType → Type 0
Message MessageType.result_errno = ResultErrno
Message MessageType.result_stat = ResultStat
Message MessageType.result_readdir = ResultReaddir
Message MessageType.result_readlink = ResultReadlink
Message MessageType.result_read = ResultRead
Message MessageType.result_write = ResultWrite

-- `add_command` gives the id of the message; `wait_for_result` gives the answer with this id and of
-- this type, or nothing on a timeout.
pub record Channel (P T : Type 0) : Type 0 where
  pub add_command : Command P → T → ℕ × T
  pub wait_for_result : (t : MessageType) → ℕ → T → Option (Message t) × T

module _ {P T : Type 0} (channel : Channel P T) where
  -- An answer that does not come is EHOSTUNREACH.
  unfoldable pub wait : (t : MessageType) → ℕ → Action T (Message t)
  wait t mid s =
      let r = channel.wait_for_result t mid s in
      elim r.0 [ some answer ↦ (ok answer, r.1) | none ↦ (raise (system_error ehostunreach), r.1) ]

  unfoldable pub single_command : (t : MessageType) → Command P → Action T (Message t)
  unfolding wait
  single_command t command s = let r = channel.add_command command s in wait t r.0 r.1
