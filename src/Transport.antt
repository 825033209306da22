-- ===== src/Transport.antt =====
-- `Serializer`, `Distributor` and `Deserializer` of src/rewofs/transport.hpp and transport.cpp. What
-- flatbuffers makes of bytes is a parameter. The mutexes and condition variables are not modelled: each
-- call runs alone.
pub mod Priority
pub mod Order
pub mod Replies
mod Tests
use rewofs.Base.{
  ℕ, ◌+◌, ◌%◌, ◌^◌, ◌≡◌, Bool, true, false, ◌&&◌, List, [], ◌∷◌, ◌++◌, Option, none, some,
  if◌then◌else◌, ◌==◌, ℕ_discrete,
}
use rewofs.Base.Assoc.{find, put, erase, emplace}
use rewofs.Base.Result.{Result, ok, raise, undefined}
use rewofs.Vfs.Call.{Action}

abbrev pub Bytes : Type 0
Bytes = List ℕ

-- `Serializer::Queue`
pub record Queue : Type 0 where
  pub priority : ℕ
  pub queue : List Bytes

-- A `QueueRef` holds an iterator, which names an element of the list for as long as it is there: here
-- the number of the queue's creation. `next_ref` is that of the next queue.
pub record Serializer : Type 0 where
  pub id_dispenser : ℕ
  pub queues : List (ℕ × Queue)
  pub next_ref : ℕ

abbrev set_msgid_seed : ℕ → Serializer → Serializer
set_msgid_seed seed s = record s { id_dispenser = seed }

unfoldable pub new_queue : ℕ → Serializer → ℕ × Serializer
new_queue priority s = (
  s.next_ref,
  record s {
    queues = s.queues ++ (s.next_ref, record { priority = priority; queue = [] }) ∷ [];
    next_ref = s.next_ref + 1;
  },
)

-- `frame` makes the bytes of the finished frame from the new message id.
unfoldable pub add_command : ℕ → (ℕ → Bytes) → Action Serializer ℕ
unfolding find put
add_command ref frame s =
    let new_cmd_id = s.id_dispenser in
    let s1 = record s { id_dispenser = (new_cmd_id + 1) % 2 ^ 64 } in
    elim (find ℕ_discrete ref s.queues) [
      | none ↦ (raise undefined, s1)
      | some q ↦ (
        ok new_cmd_id,
        record s1 {
          queues =
              put ℕ_discrete ref (record q { queue = q.queue ++ frame new_cmd_id ∷ [] }) s.queues;
        },
      )
    ]

unfoldable pub any_pending : List (ℕ × Queue) → Bool
any_pending [] = false
any_pending ((ref, q) ∷ qs) = elim q.queue [ [] ↦ any_pending qs | ◌∷◌ m ms ↦ true ]

abbrev pub is_consumable : Serializer → Bool
is_consumable s = any_pending s.queues

-- The loop of `pop`: the first queue that is not empty, its first message and what is behind it.
unfoldable pub first_pending : List (ℕ × Queue) → Option (ℕ × Queue × Bytes × List Bytes)
first_pending [] = none
first_pending ((ref, q) ∷ qs) = elim q.queue [
  | [] ↦ first_pending qs
  | ◌∷◌ m ms ↦ some (ref, q, m, ms)
]

-- `sorted` is what `std::sort` has made of the queues: it may leave those of one priority in any order.
-- The result names the queue that the message comes from.
unfoldable pub pop : List (ℕ × Queue) → Serializer → Option (ℕ × Bytes) × Serializer
unfolding first_pending put
pop sorted s = elim (first_pending sorted) [
  | none ↦ (none, s)
  | some found ↦ (
    some (found.0, found.2),
    record s { queues = put ℕ_discrete found.0 (record found.1 { queue = found.3 }) s.queues },
  )
]

-- The end of a `QueueRef`.
unfoldable pub drop_queue : ℕ → Serializer → Serializer
unfolding erase
drop_queue ref s = record s { queues = erase ℕ_discrete ref s.queues }

-- The bytes of a verified frame, and its id and the type of its message.
pub record Frames : Type 0 where
  pub parse : Bytes → Option (ℕ × ℕ)

-- `m_items`; the time of arrival is never read.
abbrev pub Deserializer : Type 0
Deserializer = List (ℕ × Bytes)

module _ (frames : Frames) where
  unfoldable pub process_frame : Bytes → Deserializer → Deserializer
  unfolding emplace
  process_frame raw_frame items = elim (frames.parse raw_frame) [
    | none ↦ items
    | some header ↦ emplace ℕ_discrete header.0 raw_frame items
  ]

  unfoldable pub process_frames : List Bytes → Deserializer → Deserializer
  unfolding process_frame
  process_frames [] items = items
  process_frames (raw ∷ raws) items = process_frames raws (process_frame raw items)

  -- `deserialize_and_match`
  abbrev pub matches : ℕ → ℕ → Bytes → Bool
  matches mid message_type raw = elim (frames.parse raw) [
    | none ↦ false
    | some header ↦ header.0 == mid && header.1 == message_type
  ]

  -- One turn of the loop of `wait_for_result`, before it sleeps.
  unfoldable pub look : ℕ → ℕ → Deserializer → Option Bytes × Deserializer
  unfolding find erase
  look mid message_type items = elim (find ℕ_discrete mid items) [
    | none ↦ (none, items)
    | some raw ↦
        if matches mid message_type raw
        then (some raw, erase ℕ_discrete mid items)
        else (none, items)
  ]

  -- The frames that arrive while the call sleeps, between one turn and the next; after the last turn
  -- the time is over. `none` is the invalid result.
  unfoldable pub wait_for_result :
      ℕ → ℕ → List (List Bytes) → Deserializer → Option Bytes × Deserializer
  unfolding look process_frames
  wait_for_result mid message_type [] items = look mid message_type items
  wait_for_result mid message_type (arrived ∷ later) items =
      let turn = look mid message_type items in
      let rest = wait_for_result mid message_type later (process_frames arrived turn.1) in
      elim turn.0 [ some raw ↦ turn | none ↦ rest ]

-- `m_subscriptions`: what is called with the bytes of a frame of each type.
abbrev pub Distributor : Type 0 → Type 0
Distributor S = List (ℕ × (Bytes → S → S))

unfoldable pub subscribe : {S : Type 0} → ℕ → (Bytes → S → S) → Distributor S → Distributor S
unfolding emplace
subscribe message_type callback subscriptions =
    emplace ℕ_discrete message_type callback subscriptions

unfoldable pub distribute : {S : Type 0} → Frames → Distributor S → Bytes → S → S
unfolding find
distribute frames subscriptions buf s = elim (frames.parse buf) [
  | none ↦ s
  | some header ↦ elim (find ℕ_discrete header.1 subscriptions) [
    | none ↦ s
    | some callback ↦ callback buf s
  ]
]
