-- ===== src/Wire/Delivery.antt =====
-- What the client's writer sends, and what the server's receiver makes of it.
use rewofs.Base.{
  ite, ℕ, zero, suc, ◌≤◌, ◌≡◌, refl, sym, ap, ◌∙◌, true, false, List, [], ◌∷◌, ◌++◌, map,
  append-nil, append_assoc, some, length, ◌==◌, arith, ℕ_discrete, Bool-cases, Option-cases, inl,
  inr,
}
use mathlib.Core.List.{reverse-cons}
use rewofs.Base.Assoc.{find}
use rewofs.Base.Result.{ok}
use rewofs.Transport.{Bytes, Queue, Serializer, is_consumable, pop}
use rewofs.Transport.Priority.{Distinct}
use rewofs.Transport.Order.{Event, Run, pending, popped_from, added_to, gone_from, pending-Run}
use rewofs.Worker.Queue.{BlockingQueue, push, waiting}
use rewofs.Wire.{
  Zstd, message, compress, decompress, receive, unpacked, recv, recv_loop, post, write_pending,
}
use rewofs.Wire.Pops.{Sorts, total, pop_pending, none_pending, none_total}

-- Messages taken out, and the queues they come from.
abbrev pub taken : List (ℕ × Bytes) → List Event
taken [] = []
taken ((ref, m) ∷ ms) = Event.popped ref m ∷ taken ms

added_to-taken : (ref : ℕ) (ms : List (ℕ × Bytes)) → added_to ref (taken ms) ≡ []
added_to-taken ref [] = refl
added_to-taken ref ((r, m) ∷ ms) = added_to-taken ref ms

gone_from-taken :
    (ref : ℕ) (ms : List (ℕ × Bytes)) → gone_from ref (taken ms) ≡ popped_from ref (taken ms)
gone_from-taken ref [] = refl
gone_from-taken ref ((r, m) ∷ ms) =
    ap (λ (b : List Bytes). ite (ℕ_discrete r ref) (m ∷ b) b) (gone_from-taken ref ms)

all_taken :
    (ref : ℕ) (s s' : Serializer) (ms : List (ℕ × Bytes))
    → Run s (taken ms) s'
    → pending ref s' ≡ []
    → popped_from ref (taken ms) ≡ pending ref s
all_taken ref s s' ms run empty =
    sym (append-nil (popped_from ref (taken ms)))
    ∙ ap (λ (r : List Bytes). popped_from ref (taken ms) ++ r) (sym empty)
    ∙ ap (λ (r : List Bytes). r ++ pending ref s') (sym (gone_from-taken ref ms))
    ∙ sym (pending-Run s s' (taken ms) ref run)
    ∙ ap (λ (r : List Bytes). pending ref s ++ r) (added_to-taken ref ms)
    ∙ append-nil (pending ref s)

-- The frames on the wire, in the order they are sent.
abbrev pub nn_send : Bytes → List Bytes → List Bytes
nn_send cbuf wire = wire ++ cbuf ∷ []

module _ (zstd : Zstd) where
  -- What zstd documents: with the bound for a capacity `ZSTD_compress` succeeds, and its frame tells the
  -- size of the data and gives it back.
  abbrev pub IsLossless : Type 0
  IsLossless =
      (buf : Bytes)
      → (cbuf : Bytes) × (zstd.compress (zstd.compress_bound (length buf)) buf ≡ some cbuf)
        × (zstd.get_frame_content_size cbuf ≡ some (length buf))
        × (zstd.decompress (length buf) cbuf ≡ some buf)

  pub decompress-compress :
      (buf : Bytes)
      → IsLossless
      → (cbuf : Bytes) × (compress zstd buf ≡ ok cbuf) × (decompress zstd cbuf ≡ ok buf)
  unfolding compress decompress
  decompress-compress buf lossless =
      let (cbuf, c, size, d) = lossless buf in
      let same : (length buf == length buf) ≡ true = ground arith in
      (cbuf, rw (c, compress), rw (size, decompress) (rw (d) (rw same refl)))

  -- Frames that hold these messages.
  abbrev Unpack : List Bytes → List Bytes → Type 0
  Unpack [] [] = Unit
  Unpack (cbuf ∷ wire) (buf ∷ bufs) = (decompress zstd cbuf ≡ ok buf) × Unpack wire bufs
  Unpack _ _ = ⊥

  recv-message :
      (cbuf buf : Bytes) (q : BlockingQueue Bytes)
      → decompress zstd cbuf ≡ ok buf
      → recv zstd (message cbuf) q ≡ (ok tt, push buf q)
  unfolding recv receive unpacked
  recv-message cbuf buf q e = rw (recv, receive, unpacked, e)

  recv_loop_lem :
      (wire bufs : List Bytes) (q : BlockingQueue Bytes)
      → Unpack wire bufs
      → (q' : BlockingQueue Bytes) × (recv_loop zstd (map message wire) q ≡ (ok tt, q'))
        × (waiting q' ≡ waiting q ++ bufs)
  unfolding recv_loop push
  recv_loop_lem [] [] q u = (q, refl, sym (append-nil (waiting q)))
  recv_loop_lem [] (buf ∷ bufs) q u = absurd u
  recv_loop_lem (cbuf ∷ wire) [] q u = absurd u
  recv_loop_lem (cbuf ∷ wire) (buf ∷ bufs) q u =
      let (q', run, w) = recv_loop_lem wire bufs (push buf q) u.1 in
      (
        q',
        rw (recv_loop, recv-message cbuf buf q u.0) run,
        w
            ∙ ap (λ (r : List Bytes). r ++ bufs) (reverse-cons buf q.queue)
            ∙ append_assoc (waiting q) (buf ∷ []) bufs,
      )

  post-compress :
      (buf cbuf : Bytes) (wire : List Bytes)
      → compress zstd buf ≡ ok cbuf
      → post zstd nn_send buf wire ≡ wire ++ cbuf ∷ []
  unfolding post
  post-compress buf cbuf wire e = rw (post, e)

  module _ (sort : List (ℕ × Queue) → List (ℕ × Queue)) where
    write_pending-stop :
        {T : Type 0} (send : Bytes → T → T) (n : ℕ) (s : Serializer) (t : T)
        → is_consumable s ≡ false
        → write_pending zstd send sort n s t ≡ some (s, t)
    unfolding write_pending
    write_pending-stop send zero s t e = rw (write_pending, e)
    write_pending-stop send (suc n) s t e = rw (write_pending, e)

    write_pending-round :
        {T : Type 0} (send : Bytes → T → T) (n ref : ℕ) (m : Bytes) (s s1 : Serializer) (t : T)
        → is_consumable s ≡ true
        → pop (sort s.queues) s ≡ (some (ref, m), s1)
        → write_pending zstd send sort (suc n) s t
          ≡ write_pending zstd send sort n s1 (post zstd send m t)
    unfolding write_pending
    write_pending-round send n ref m s s1 t e p = rw (write_pending, e) (rw p (rw p refl))

    nothing :
        (n : ℕ) (s : Serializer) (wire : List Bytes)
        → is_consumable s ≡ false
        → (s' : Serializer) × (ms : List (ℕ × Bytes)) × (sent : List Bytes) × (write_pending zstd
              nn_send sort n s wire
            ≡ some (s', wire ++ sent))
          × Run s (taken ms) s'
          × Unpack sent (map (λ (m : ℕ × Bytes). m.1) ms)
          × (is_consumable s' ≡ false)
    nothing n s wire e = (
      s,
      [],
      [],
      write_pending-stop nn_send n s wire e
          ∙ ap (λ (w : List Bytes). some (s, w)) (sym (append-nil wire)),
      Run.stop s,
      tt,
      e,
    )

    write_pending_lem :
        (n : ℕ) (s : Serializer) (wire : List Bytes)
        → Sorts sort
        → IsLossless
        → Distinct s.queues
        → total s.queues ≤ n
        → (s' : Serializer) × (ms : List (ℕ × Bytes)) × (sent : List Bytes) × (write_pending zstd
              nn_send sort n s wire
            ≡ some (s', wire ++ sent))
          × Run s (taken ms) s'
          × Unpack sent (map (λ (m : ℕ × Bytes). m.1) ms)
          × (is_consumable s' ≡ false)
    write_pending_lem zero s wire sorts lossless d h =
        nothing zero s wire (none_total s.queues (omega arith))
    write_pending_lem (suc n) s wire sorts lossless d h = elim (Bool-cases (is_consumable s)) [
      | inr e ↦ nothing (suc n) s wire e
      | inl e ↦
          let (ref, m, s1, p, d1, less) = pop_pending sort s sorts d e in
          let (cbuf, c, plain) = decompress-compress m lossless in
          let (s', ms, sent, run, taken_out, unpack, done) =
            write_pending_lem n s1 (wire ++ cbuf ∷ []) sorts lossless d1 (omega (arith, less)) in
          (
            s',
            (ref, m) ∷ ms,
            cbuf ∷ sent,
            write_pending-round nn_send n ref m s s1 wire e p
                ∙ ap (λ (w : List Bytes). write_pending zstd nn_send sort n s1 w)
                    (post-compress m cbuf wire c)
                ∙ run
                ∙ ap (λ (w : List Bytes). some (s', w)) (append_assoc wire (cbuf ∷ []) sent),
            Run.take (sort s.queues) ref m s s1 s' (taken ms) (sorts s.queues d) p taken_out,
            (plain, unpack),
            done,
          )
    ]

  nothing_pending : (ref : ℕ) (s : Serializer) → is_consumable s ≡ false → pending ref s ≡ []
  nothing_pending ref s e = elim (Option-cases (find ℕ_discrete ref s.queues)) [
    | inl f ↦ rw (pending, f)
    | inr (q, f) ↦ rw (pending, f) (none_pending s.queues ref q e f)
  ]

  -- With a sort that orders the queues, each of them there once, a compression that gives back what it got,
  -- a round for each message that waits, and a socket that loses nothing: the inner loop of the client's
  -- writer comes to its end, and no message waits. The server, which gets what was sent, has the messages
  -- behind the requests that it had, as they were before they were compressed; and those of each of the
  -- client's queues are all that waited in the queue, in its order.
  pub delivery :
      (sort : List (ℕ × Queue) → List (ℕ × Queue)) (n : ℕ) (s : Serializer)
      (q : BlockingQueue Bytes)
      → Sorts sort
      → IsLossless
      → Distinct s.queues
      → total s.queues ≤ n
      → (s' : Serializer) × (wire : List Bytes) × (ms : List (ℕ × Bytes)) × (q' : BlockingQueue
          Bytes)
        × (write_pending zstd nn_send sort n s [] ≡ some (s', wire))
        × (recv_loop zstd (map message wire) q ≡ (ok tt, q'))
        × (waiting q' ≡ waiting q ++ map (λ (m : ℕ × Bytes). m.1) ms)
        × ((ref : ℕ) → (popped_from ref (taken ms) ≡ pending ref s) × (pending ref s' ≡ []))
  delivery sort n s q sorts lossless d h =
      let (s', ms, sent, run, taken_out, unpack, done) =
        write_pending_lem sort n s [] sorts lossless d h in
      let (q', received, w) = recv_loop_lem sent (map (λ (m : ℕ × Bytes). m.1) ms) q unpack in
      (
        s',
        sent,
        ms,
        q',
        run,
        received,
        w,
        λ ref.
            let empty : pending ref s' ≡ [] = nothing_pending ref s' done in
            (all_taken ref s s' ms taken_out empty, empty),
      )
