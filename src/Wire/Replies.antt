-- ===== src/Wire/Replies.antt =====
-- From `send` of the server to `wait_for_result` of the client.
use rewofs.Base.{
  ℕ, ◌≡◌, ◌≢◌, ◌⊎◌, inl, inr, refl, ap, ◌∙◌, true, false, [], ◌∷◌, Option, none, some, ite, if_pos,
  ◌==◌, ◌&&◌, or_else, arith, ℕ_discrete,
}
use rewofs.Base.Assoc.{find, find-emplace}
use rewofs.Base.Result.{ok, raise, runtime_error}
use rewofs.Transport.{
  Bytes, Frames, Deserializer, Distributor, process_frame, distribute, look, matches,
}
use rewofs.Wire.{
  Zstd, message, failed, is_transient, decompress, receive, unpacked, read_frame, send,
}
use rewofs.Wire.Delivery.{IsLossless, decompress-compress, nn_send}

module _ {S : Type 0} (zstd : Zstd) (frames : Frames) (subscriptions : Distributor S) where
  read_frame-message :
      (cbuf plain : Bytes) (items : Deserializer) (s : S)
      → decompress zstd cbuf ≡ ok plain
      → read_frame zstd frames subscriptions (message cbuf) (items, s)
        ≡ (ok tt, (process_frame frames plain items, distribute frames subscriptions plain s))
  unfolding read_frame receive unpacked
  read_frame-message cbuf plain items s e = rw (read_frame, receive, unpacked, e)

  found :
      (plain : Bytes) (mid message_type : ℕ) (items : Deserializer)
      → frames.parse plain ≡ some (mid, message_type)
      → find ℕ_discrete mid items ≡ none
      → find ℕ_discrete mid (process_frame frames plain items) ≡ some plain
  unfolding process_frame
  found plain mid message_type items p free =
      rw (p, process_frame)
        (find-emplace ℕ_discrete mid mid plain items
          ∙ ap (λ (o : Option Bytes). or_else o (ite (ℕ_discrete mid mid) (some plain) none)) free
          ∙ if_pos (ℕ_discrete mid mid) refl _ _)

  look-found :
      (plain : Bytes) (mid message_type : ℕ) (items : Deserializer)
      → frames.parse plain ≡ some (mid, message_type)
      → find ℕ_discrete mid items ≡ some plain
      → (look frames mid message_type items).0 ≡ some plain
  unfolding look
  look-found plain mid message_type items p f =
      let same : (mid == mid && message_type == message_type) ≡ true = ground arith in
      let matched : matches frames mid message_type plain ≡ true = rw (matches, p) same in
      rw (look, f, matched) refl

  -- With a compression that gives back what it got: an answer that the server sends is one message; the
  -- client's reader takes it without an exception and hands its bytes to what is subscribed, and the call
  -- that waits for an answer with its id and of its type finds it with its next look, if no other answer with
  -- this id is there.
  pub look-send :
      (buf : Bytes) (mid message_type : ℕ) (items : Deserializer) (s : S)
      → IsLossless zstd
      → frames.parse buf ≡ some (mid, message_type)
      → find ℕ_discrete mid items ≡ none
      → (cbuf : Bytes) × (items' : Deserializer) × (send zstd nn_send buf [] ≡ (ok tt, cbuf ∷ []))
        × (read_frame zstd frames subscriptions (message cbuf) (items, s)
            ≡ (ok tt, (items', distribute frames subscriptions buf s)))
        × ((look frames mid message_type items').0 ≡ some buf)
  unfolding send
  look-send buf mid message_type items s lossless p free =
      let (cbuf, c, plain) = decompress-compress zstd buf lossless in
      (
        cbuf,
        process_frame frames buf items,
        rw (send, c),
        read_frame-message cbuf buf items s plain,
        look-found buf mid message_type (process_frame frames buf items) p
            (found buf mid message_type items p free),
      )

  undecompressed :
      (buf : Bytes)
      → (zstd.get_frame_content_size buf ≡ none)
        ⊎ ((n : ℕ) × (zstd.get_frame_content_size buf ≡ some n) × (zstd.decompress n buf ≡ none))
      → decompress zstd buf ≡ raise runtime_error
  unfolding decompress
  undecompressed buf (inl e) = rw (e, decompress) refl
  undecompressed buf (inr (n, e, f)) = rw (e, f, decompress) refl

  -- What the reader does with the other results of `nn_recv`: it goes on as it was after the errno 11, 110
  -- or 4 (EAGAIN, ETIMEDOUT, EINTR). Any other errno, and a message whose size zstd does not tell or which
  -- it does not decompress, is an exception that ends the thread, with nothing taken in.
  pub read_frame_raise :
      (fatal : ℕ) (cbuf : Bytes) (state : Deserializer × S)
      → fatal ≢ 11
      → fatal ≢ 110
      → fatal ≢ 4
      → (zstd.get_frame_content_size cbuf ≡ none)
        ⊎ ((n : ℕ) × (zstd.get_frame_content_size cbuf ≡ some n) × (zstd.decompress n cbuf ≡ none))
      → (read_frame zstd frames subscriptions (failed 11) state ≡ (ok tt, state))
        × (read_frame zstd frames subscriptions (failed 110) state ≡ (ok tt, state))
        × (read_frame zstd frames subscriptions (failed 4) state ≡ (ok tt, state))
        × (read_frame zstd frames subscriptions (failed fatal) state ≡ (raise runtime_error, state))
        × (read_frame zstd frames subscriptions (message cbuf) state ≡ (raise runtime_error, state))
  unfolding read_frame receive
  read_frame_raise fatal cbuf state h1 h2 h3 garbled =
      let f : is_transient fatal ≡ false = ground arith in
      (
        refl,
        refl,
        refl,
        rw (read_frame, receive, f),
        rw (read_frame, receive, unpacked, undecompressed cbuf garbled),
      )
