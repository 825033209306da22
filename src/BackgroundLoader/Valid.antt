-- ===== src/BackgroundLoader/Valid.antt =====
-- The preloading keeps the cached content valid.
use rewofs.Base.{
  ℕ, ◌+◌, ◌<◌, ◌^◌, ◌≡◌, ◌≢◌, refl, ◌∙◌, List, [], ◌∷◌, ◌++◌, false, Option, some, length,
  replicate, leb, Bool-cases, Option-cases, inl, inr, length-replicate,
}
use rewofs.Base.Paths.{Paths}
use rewofs.Base.Result.{Result, ok, raise, system_error, runtime_error, undefined}
use rewofs.Content.Blocks.{length-copy_at}
use rewofs.Content.Contract.{IsValid, write-IsValid}
use rewofs.Content.{Content, write}
use rewofs.Tree.{Node}
use rewofs.Cache.{Cache}
use rewofs.Cache
use rewofs.Vfs.Call.{Action, then_call}
use rewofs.Channel.{ResultPreread}
use rewofs.BackgroundLoader.{block_aligned_size}
use rewofs.RemoteVfs.{is_negative}
use rewofs.BackgroundLoader.Preload.{
  Block, FileInfo, Prereads, padded, on_cache, store, wait_for_mids, send_blocks, all_blocks,
  bulk_size, preload_files_bulks, logged,
}

module _ {P T : Type 0} ⦃paths : Paths P⦄ (comm : Prereads P T) where
  -- No answer has a block that ends, padded, at 2 ^ 64 or behind.
  abbrev pub AnswersFit : Type 0
  AnswersFit =
      (mid : ℕ) (t : T) (m : ResultPreread P)
      → (comm.wait_for_result mid t).0 ≡ some m
      → m.offset + block_aligned_size (length m.bytes) < 2 ^ 64

  -- The cached content is valid, the cached tree is this one, and nothing undefined has happened.
  abbrev Safe : Node → Result (Unit {0}) × (Cache P × T) → Type 0
  Safe tree r = IsValid r.1.0.content × (r.1.0.tree ≡ tree) × (r.0 ≢ raise undefined)

  on_cache-ok :
      (f : Cache P → Result (Cache P)) (s : Cache P × T) (cache : Cache P)
      → f s.0 ≡ ok cache
      → on_cache comm f s ≡ (ok tt, (cache, s.1))
  on_cache-ok f s cache done = rw (on_cache, done)

  store-write :
      (m : ResultPreread P) (s : Cache P × T) (cache : Cache P)
      → is_negative m.res ≡ false
      → Cache.write m.path m.offset (padded comm m.bytes) s.0 ≡ ok cache
      → store comm m s ≡ (ok tt, (cache, s.1))
  unfolding store
  store-write m s cache h done =
      rw (h, store) (on_cache-ok (Cache.write m.path m.offset (padded comm m.bytes)) s cache done)

  write-content :
      (m : ResultPreread P) (s : Cache P) (content : Content P)
      → write m.path m.offset (padded comm m.bytes) s.content ≡ ok content
      → Cache.write m.path m.offset (padded comm m.bytes) s ≡ ok (record s { content = content })
  unfolding Cache.write
  write-content m s content done = rw done

  store-IsValid :
      (m : ResultPreread P) (s : Cache P × T)
      → m.offset + block_aligned_size (length m.bytes) < 2 ^ 64
      → IsValid s.0.content
      → (s' : Cache P × T) × (store comm m s ≡ (ok tt, s'))
        × IsValid s'.0.content
        × (s'.0.tree ≡ s.0.tree)
  unfolding store
  store-IsValid m s fits v = elim (Bool-cases (is_negative m.res)) [
    | inl h ↦ (s, rw (h, store), v, refl)
    | inr h ↦
        let bytes : List ℕ = padded comm m.bytes in
        let len : length bytes ≡ block_aligned_size (length m.bytes) =
          length-copy_at m.bytes 0 (replicate (block_aligned_size (length m.bytes)) 0)
          ∙ length-replicate (block_aligned_size (length m.bytes)) 0 in
        let (content, done, w) = write-IsValid m.path m.offset bytes s.0.content v (rw len fits) in
        let cache : Cache P = record s.0 { content = content } in
        ((cache, s.1), store-write m s cache h (write-content m s.0 content done), w, refl)
  ]

  then_call-Safe :
      (tree : Node) (r : Result (Unit {0}) × (Cache P × T)) (rest : Action (Cache P × T) (Unit {0}))
      → Safe tree r
      → ((s : Cache P × T) → IsValid s.0.content → s.0.tree ≡ tree → Safe tree (rest s))
      → Safe tree (then_call r (λ u. rest))
  then_call-Safe tree (ok u, s) rest safe next = next s safe.0 safe.1
  then_call-Safe tree (raise e, s) rest safe next = (safe.0, safe.1, λ h. safe.2 (cc))

  wait_for_mids-Safe :
      (tree : Node) (mids : List ℕ) (s : Cache P × T)
      → AnswersFit
      → IsValid s.0.content
      → s.0.tree ≡ tree
      → Safe tree (wait_for_mids comm mids s)
  unfolding wait_for_mids
  wait_for_mids-Safe tree [] s fits v e = (v, e, λ h. cc)
  wait_for_mids-Safe tree (mid ∷ mids) s fits v e =
      let got : Option (ResultPreread P) × T = comm.wait_for_result mid s.1 in
      elim (Option-cases got.0) [
        | inl h ↦ rw (h, wait_for_mids) (v, e, λ k. cc)
        | inr (m, h) ↦
            let (s', done, w, same) = store-IsValid m (s.0, got.1) (fits mid s.1 m h) v in
            rw (h, wait_for_mids, done) (wait_for_mids-Safe tree mids s' fits w (same ∙ e))
      ]

  send_blocks-Safe :
      (tree : Node) (bs : List (Block P)) (mids : List ℕ) (n : ℕ) (s : Cache P × T)
      → AnswersFit
      → IsValid s.0.content
      → s.0.tree ≡ tree
      → Safe tree (send_blocks comm bs mids n s)
  unfolding send_blocks
  send_blocks-Safe tree [] mids n s fits v e = wait_for_mids-Safe tree mids s fits v e
  send_blocks-Safe tree (b ∷ bs) mids n s fits v e =
      let sent : ℕ × T = comm.add_command b s.1 in
      elim (Bool-cases (leb bulk_size (n + b.size))) [
        | inl full ↦
            rw (full, send_blocks)
              (then_call-Safe tree (wait_for_mids comm (mids ++ sent.0 ∷ []) (s.0, sent.1))
                (send_blocks comm bs [] 0)
                (wait_for_mids-Safe tree (mids ++ sent.0 ∷ []) (s.0, sent.1) fits v e)
                (λ s' w e'. send_blocks-Safe tree bs [] 0 s' fits w e'))
        | inr more ↦
            rw (more, send_blocks)
              (send_blocks-Safe tree bs (mids ++ sent.0 ∷ []) (n + b.size) (s.0, sent.1) fits v e)
      ]

  logged-ok :
      (r : Result (Unit {0}) × (Cache P × T)) → r.0 ≢ raise undefined → logged comm r ≡ (ok tt, r.1)
  logged-ok (ok u, s) h = refl
  logged-ok (raise undefined, s) h = absurd (h refl)
  logged-ok (raise (system_error e), s) h = refl
  logged-ok (raise runtime_error, s) h = refl

  -- On a valid cache, where no answer has a block that ends, padded, at 2 ^ 64 or behind, the preloading
  -- returns, whatever the server answers and whenever it stops to (if the sizes fit, or the loop of the code
  -- has no end), and leaves valid content and the tree that was there.
  pub preload_files_bulks-IsValid :
      (files : List (FileInfo P)) (s : Cache P × T)
      → AnswersFit
      → IsValid s.0.content
      → ((preload_files_bulks comm files s).0 ≡ ok tt)
        × IsValid (preload_files_bulks comm files s).1.0.content
        × ((preload_files_bulks comm files s).1.0.tree ≡ s.0.tree)
  unfolding preload_files_bulks
  preload_files_bulks-IsValid files s fits v =
      let (w, e, defined) = send_blocks-Safe s.0.tree (all_blocks files) [] 0 s fits v refl in
      rw (logged-ok (send_blocks comm (all_blocks files) [] 0 s) defined) (refl, w, e)
