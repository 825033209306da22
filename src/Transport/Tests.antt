-- ===== src/Transport/Tests.antt =====
-- The serializer and the deserializer at inputs (tests/unit/test_transport.cpp).
use rewofs.Base.{
  ℕ, ◌≡◌, ◌+◌, refl, List, [], ◌∷◌, ◌++◌, Option, none, some, arith, ℕ_discrete, or_else, find_if,
}
use rewofs.Base.Assoc.{find, put, emplace, erase}
use rewofs.Transport.{
  Bytes, Queue, Serializer, Frames, add_command, pop, new_queue, drop_queue, first_pending,
  process_frame, process_frames, look, wait_for_result, is_consumable, any_pending, subscribe,
  distribute,
}
use rewofs.Transport.Priority.{Arranged}
use rewofs.Transport.Order.{Event, Run, pending, added_to, gone_from, pending-Run}
use rewofs.Transport.Replies.{accepted, is_for, concat, wait_for_result_lem}

program : Unit {0}
unfolding add_command pop first_pending find put emplace erase ℕ_discrete process_frame
    process_frames look wait_for_result new_queue drop_queue any_pending subscribe distribute
program = tt

abbrev high : Queue
high = record { priority = 100; queue = (1 ∷ []) ∷ [] }

abbrev normal : Queue
normal = record { priority = 10; queue = (2 ∷ []) ∷ (3 ∷ []) ∷ [] }

abbrev two : Serializer
two = record { id_dispenser = 5; queues = (0, high) ∷ (1, normal) ∷ []; next_ref = 2 }

abbrev rest : Serializer
rest = record two { queues = (0, record high { queue = [] }) ∷ (1, normal) ∷ [] }

two_Arranged : Arranged two.queues two.queues
unfolding program
two_Arranged = ((refl, (refl, tt)), (((omega arith, tt), (tt, tt))), λ r. refl)

popped : pop two.queues two ≡ (some (0, 1 ∷ []), rest)
unfolding program
popped = refl

-- With the queue of high priority empty, the other one is served.
popped_next : (pop rest.queues rest).0 ≡ some (1, 2 ∷ [])
unfolding program
popped_next = refl

dropped :
    (is_consumable (drop_queue 1 rest)) ≡ is_consumable (new_queue 7 (record two { queues = [] })).1
unfolding program
dropped = refl

-- A frame that starts with its id and its type.
abbrev header : Bytes → Option (ℕ × ℕ)
header [] = none
header (a ∷ []) = none
header (a ∷ b ∷ c) = some (a, b)

abbrev frames : Frames
frames = record { parse = header }

-- The second frame with the id is dropped, the first one is handed out.
first_wins :
    (wait_for_result frames 4 1 (((4 ∷ 1 ∷ 9 ∷ []) ∷ (4 ∷ 1 ∷ 8 ∷ []) ∷ []) ∷ []) []).0
    ≡ some (4 ∷ 1 ∷ 9 ∷ [])
unfolding program
first_wins = refl

abbrev count : Bytes → ℕ → ℕ
count buf n = n + 1

counted : distribute frames (subscribe 1 (count) []) (4 ∷ 1 ∷ []) 6 ≡ 7
unfolding program
counted = refl

-- The theorems at inputs.
abbrev events : List Event
events = Event.popped 0 (1 ∷ []) ∷ Event.opened 2 ∷ Event.dropped 1 ((2 ∷ []) ∷ (3 ∷ []) ∷ []) ∷ []

abbrev more : Serializer
more = record rest {
  queues = rest.queues ++ (2, record { priority = 7; queue = [] }) ∷ [];
  next_ref = 3;
}

made : new_queue 7 rest ≡ (2, more)
unfolding program
made = refl

waited : pending 1 more ≡ (2 ∷ []) ∷ (3 ∷ []) ∷ []
unfolding program
waited = refl

-- One message is taken out of the first queue, and two go with the second.
pending-Run_example :
    pending 1 two ++ added_to 1 events ≡ gone_from 1 events ++ pending 1 (drop_queue 1 more)
pending-Run_example = pending-Run two (drop_queue 1 more) events 1 (
    Run.take two.queues 0 (1 ∷ []) two rest (drop_queue 1 more)
      (Event.opened 2 ∷ Event.dropped 1 ((2 ∷ []) ∷ (3 ∷ []) ∷ []) ∷ []) two_Arranged popped
      (Run.make 7 2 rest more (drop_queue 1 more) (Event.dropped 1 ((2 ∷ []) ∷ (3 ∷ []) ∷ []) ∷ [])
        made
        (Run.drop 1 ((2 ∷ []) ∷ (3 ∷ []) ∷ []) more (drop_queue 1 more) [] waited
          (Run.stop (drop_queue 1 more)))))

abbrev arrivals : List (List Bytes)
arrivals = ((4 ∷ 1 ∷ []) ∷ []) ∷ []

wait_for_result_lem_example :
    (wait_for_result frames 4 1 arrivals []).0
    ≡ accepted frames 4 1 (or_else none (find_if (is_for frames 4 1) (concat arrivals)))
unfolding find
wait_for_result_lem_example = wait_for_result_lem frames 4 1 arrivals []
