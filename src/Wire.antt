-- ===== src/Wire.antt =====
-- Between the serializer of the client and the requests of the server: `compress` and `decompress` of
-- src/rewofs/compression.cpp, `receive` of src/rewofs/nanomsg.cpp, the loops of the threads of
-- src/rewofs/client/transport.cpp, and `send`, `recv` of src/rewofs/server/transport.cpp. zstd and the
-- socket are parameters.
pub mod Pops
pub mod Delivery
pub mod Replies
mod Sorting
mod Tests
use rewofs.Base.{
  ℕ, zero, suc, Bool, true, false, ◌||◌, List, [], ◌∷◌, Option, none, some, length, ◌==◌,
  if◌then◌else◌,
}
use rewofs.Base.Result.{Result, ok, raise, runtime_error, undefined}
use rewofs.Vfs.Call.{Action, ◌>>◌, return, throw}
use rewofs.Transport.{
  Bytes, Queue, Serializer, is_consumable, pop, Frames, Deserializer, process_frame, Distributor,
  distribute,
}
use rewofs.Worker.Queue.{BlockingQueue, push}

-- `compress` and `decompress` get the capacity of the output; `none` is a code for which `ZSTD_isError`
-- holds, as the size of a frame that does not tell it is.
pub record Zstd : Type 0 where
  pub compress_bound : ℕ → ℕ
  pub compress : ℕ → Bytes → Option Bytes
  pub get_frame_content_size : Bytes → Option ℕ
  pub decompress : ℕ → Bytes → Option Bytes

-- What `nn_recv` gives: a message, or a negative length and this errno.
pub data Received : Type 0 where
  message : Bytes → Received
  failed : ℕ → Received

-- EAGAIN, ETIMEDOUT and EINTR.
abbrev pub is_transient : ℕ → Bool
is_transient e = e == 11 || e == 110 || e == 4

unfoldable pub receive :
    {S : Type 0} → Received → (Bytes → Action S (Unit {0})) → Action S (Unit {0})
receive (message buf) recv_cb = recv_cb buf
receive (failed e) recv_cb = if is_transient e then return tt else throw runtime_error

module _ (zstd : Zstd) where
  unfoldable pub compress : Bytes → Result Bytes
  compress buf = elim (zstd.compress (zstd.compress_bound (length buf)) buf) [
    | none ↦ raise runtime_error
    | some cbuf ↦ ok cbuf
  ]

  -- The assert at the end is `undefined` where it fails.
  unfoldable pub decompress : Bytes → Result Bytes
  decompress cbuf = elim (zstd.get_frame_content_size cbuf) [
    | none ↦ raise runtime_error
    | some unsize ↦ elim (zstd.decompress unsize cbuf) [
      | none ↦ raise runtime_error
      | some unbuf ↦ if length unbuf == unsize then ok unbuf else raise undefined
    ]
  ]

  -- A callback that gets the plain bytes; an exception of `decompress` is not caught.
  unfoldable pub unpacked : {S : Type 0} → (Bytes → S → S) → Bytes → Action S (Unit {0})
  unfolding decompress
  unpacked use_plain cbuf s = elim (decompress cbuf) [
    | raise e ↦ (raise e, s)
    | ok plain ↦ (ok tt, use_plain plain s)
  ]

  -- A turn of the client's `run_reader`.
  unfoldable pub read_frame :
      {S : Type 0} → Frames → Distributor S → Received → Action (Deserializer × S) (Unit {0})
  unfolding receive unpacked process_frame distribute
  read_frame frames subscriptions got = receive got (
      unpacked
        (λ plain s. (process_frame frames plain s.0, distribute frames subscriptions plain s.1)))

  -- The server's `recv`, with the callback of `Worker::recv_loop`, and turns of that loop.
  unfoldable pub recv : Received → Action (BlockingQueue Bytes) (Unit {0})
  unfolding receive unpacked push
  recv got = receive got (unpacked push)

  unfoldable pub recv_loop : List Received → Action (BlockingQueue Bytes) (Unit {0})
  unfolding recv
  recv_loop [] = return tt
  recv_loop (got ∷ later) = recv got >> recv_loop later

  module _ {T : Type 0} (nn_send : Bytes → T → T) where
    -- The server's `send`; what `nn_send` returns is not looked at.
    unfoldable pub send : Bytes → Action T (Unit {0})
    unfolding compress
    send buf t = elim (compress buf) [ raise e ↦ (raise e, t) | ok cbuf ↦ (ok tt, nn_send cbuf t) ]

    -- The callback of `run_writer`, which logs an exception.
    unfoldable pub post : Bytes → T → T
    unfolding compress
    post buf t = elim (compress buf) [ raise e ↦ t | ok cbuf ↦ nn_send cbuf t ]

    -- The inner loop of `run_writer`. `sort` is what `std::sort` makes of the queues. The code has no bound;
    -- here the first argument bounds the rounds.
    unfoldable pub write_pending :
        (List (ℕ × Queue) → List (ℕ × Queue)) → ℕ → Serializer → T → Option (Serializer × T)
    unfolding pop post
    write_pending sort zero s t = elim (is_consumable s) [ true ↦ none | false ↦ some (s, t) ]
    write_pending sort (suc fuel) s t = elim (is_consumable s) [
      | false ↦ some (s, t)
      | true ↦
          let r = pop (sort s.queues) s in
          elim r.0 [
            | none ↦ write_pending sort fuel r.1 t
            | some (ref, buf) ↦ write_pending sort fuel r.1 (post buf t)
          ]
    ]
