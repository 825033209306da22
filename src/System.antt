-- ===== src/System.antt =====
-- The client and the server together: FUSE over `CachedVfs` over `RemoteVfs`, whose commands one thread of
-- the `Worker` handles. `Network` stands for what is between them, a serializer, a deserializer and a
-- network that lose nothing: each command is handled when it is sent, and its answer waits until it is
-- asked for. It models no code of its own.
pub mod Errors
pub mod Mirror
mod Tests
mod MirrorTests
use rewofs.Base.{ℕ, ◌+◌, ◌%◌, ◌^◌, Bool, true, false, List, [], ◌∷◌, Option, none, some, ℕ_discrete}
use rewofs.Base.Assoc.{find, erase}
use rewofs.Base.Result.{Result, ok, raise}
use rewofs.Channel.{Channel, Command, MessageType, Message}
use rewofs.Worker.{Posix, Worker}
use rewofs.Worker.Inspect.{Files}
use rewofs.Worker.Dispatch.{Reply, of_type, process_message}

-- `alive` until an exception has left the server's thread.
pub record Network (P K : Type 0) : Type 0 where
  pub next_id : ℕ
  pub alive : Bool
  pub worker : Worker P K
  pub sent : List (ℕ × Reply)

abbrev is_ok : {A : Type 0} → Result A → Bool
is_ok (ok a) = true
is_ok (raise e) = false

module _ {P K : Type 0} (posix : Posix P K) (files : Files P K) where
  unfoldable pub deliver : Command P → Network P K → ℕ × Network P K
  unfolding process_message
  deliver command s =
      let id = s.next_id in
      let r = process_message posix files id command (s.worker, s.sent) in
      elim s.alive [
        | false ↦ (id, record s { next_id = (id + 1) % 2 ^ 64 })
        | true ↦ (
          id,
          record { next_id = (id + 1) % 2 ^ 64; alive = is_ok r.0; worker = r.1.0; sent = r.1.1 },
        )
      ]

  unfoldable pub collect : (t : MessageType) → ℕ → Network P K → Option (Message t) × Network P K
  unfolding find erase
  collect t mid s = elim (find ℕ_discrete mid s.sent) [
    | none ↦ (none, s)
    | some reply ↦ (of_type t reply, record s { sent = erase ℕ_discrete mid s.sent })
  ]

  abbrev pub network : Channel P (Network P K)
  network = record { add_command = deliver; wait_for_result = collect }
