-- ===== src/Wire/Tests.antt =====
-- The wire at inputs, with a compression that puts the length before the data.
use rewofs.Base.{
  inl, ℕ, ◌+◌, ◌≡◌, refl, false, List, [], ◌∷◌, map, Option, none, some, length, arith, ℕ_discrete,
}
use rewofs.Base.Assoc.{find, put}
use rewofs.Base.Result.{ok, raise, runtime_error}
use rewofs.Transport.{
  Bytes, Serializer, Frames, Deserializer, Distributor, distribute, look, first_pending, pop,
  any_pending,
}
use rewofs.Transport.Order.{pending, popped_from}
use rewofs.Worker.Queue.{BlockingQueue, waiting}
use rewofs.Wire.{
  Zstd, message, failed, compress, decompress, receive, unpacked, read_frame, recv_loop, send, post,
  write_pending,
}
use rewofs.Wire.Delivery.{IsLossless, nn_send, taken, delivery}
use rewofs.Wire.Replies.{look-send, read_frame_raise}
use rewofs.Wire.Sorting.{insert, by_priority, by_priority-Sorts}

abbrev size_of : Bytes → Option ℕ
size_of [] = none
size_of (n ∷ buf) = some n

abbrev data_of : Bytes → Option Bytes
data_of [] = none
data_of (n ∷ buf) = some buf

abbrev zstd : Zstd
zstd = record {
  compress_bound = λ n. n + 1;
  compress = λ capacity buf. some (length buf ∷ buf);
  get_frame_content_size = size_of;
  decompress = λ capacity cbuf. data_of cbuf;
}

lossless : IsLossless zstd
lossless buf = (length buf ∷ buf, refl, refl, refl)

-- Two queues, the one with the lower priority first.
abbrev client : Serializer
client = record {
  id_dispenser = 9;
  queues =
      (0, record { priority = 1; queue = (7 ∷ []) ∷ (8 ∷ []) ∷ [] })
      ∷ (1, record { priority = 2; queue = (5 ∷ []) ∷ [] })
      ∷ [];
  next_ref = 2;
}

abbrev server : BlockingQueue Bytes
server = record { queue = []; stopped = false }

program : Unit {0}
unfolding write_pending post compress decompress pop first_pending any_pending put find by_priority
    insert ℕ_discrete receive unpacked read_frame
program = tt

written :
    write_pending zstd nn_send by_priority 3 client []
    ≡ some (
      record client {
        queues =
            (0, record { priority = 1; queue = [] })
            ∷ (1, record { priority = 2; queue = [] })
            ∷ [];
      },
      (1 ∷ 5 ∷ []) ∷ (1 ∷ 7 ∷ []) ∷ (1 ∷ 8 ∷ []) ∷ [],
    )
unfolding program
written = refl

abbrev parse : Bytes → Option (ℕ × ℕ)
parse (mid ∷ message_type ∷ rest) = some (mid, message_type)
parse _ = none

abbrev frames : Frames
frames = record { parse = parse }

abbrev nobody : Distributor ℕ
nobody = []

-- The theorems at inputs.
delivery_example :
    (s' : Serializer) × (wire : List Bytes) × (ms : List (ℕ × Bytes)) × (q' : BlockingQueue Bytes)
    × (write_pending zstd nn_send by_priority 3 client [] ≡ some (s', wire))
    × (recv_loop zstd (map message wire) server ≡ (ok tt, q'))
    × (waiting q' ≡ map (λ (m : ℕ × Bytes). m.1) ms)
    × ((ref : ℕ) → (popped_from ref (taken ms) ≡ pending ref client) × (pending ref s' ≡ []))
unfolding find ℕ_discrete
delivery_example =
    delivery zstd by_priority 3 client server by_priority-Sorts lossless (refl, (refl, tt))
      (omega arith)

look-send_example :
    (cbuf : Bytes) × (items : Deserializer) × (send zstd nn_send (4 ∷ 2 ∷ 9 ∷ []) []
      ≡ (ok tt, cbuf ∷ []))
    × (read_frame zstd frames nobody (message cbuf) ([], 0)
        ≡ (ok tt, (items, distribute frames nobody (4 ∷ 2 ∷ 9 ∷ []) 0)))
    × ((look frames 4 2 items).0 ≡ some (4 ∷ 2 ∷ 9 ∷ []))
unfolding find
look-send_example = look-send zstd frames nobody (4 ∷ 2 ∷ 9 ∷ []) 4 2 [] 0 lossless refl refl

read_frame_raise_example :
    (read_frame zstd frames nobody (failed 11) ([], 0) ≡ (ok tt, ([], 0)))
    × (read_frame zstd frames nobody (failed 110) ([], 0) ≡ (ok tt, ([], 0)))
    × (read_frame zstd frames nobody (failed 4) ([], 0) ≡ (ok tt, ([], 0)))
    × (read_frame zstd frames nobody (failed 9) ([], 0) ≡ (raise runtime_error, ([], 0)))
    × (read_frame zstd frames nobody (message []) ([], 0) ≡ (raise runtime_error, ([], 0)))
read_frame_raise_example =
    read_frame_raise zstd frames nobody 9 [] ([], 0) (λ e. omega (arith, e)) (λ e. omega (arith, e))
      (λ e. omega (arith, e)) (inl refl)
