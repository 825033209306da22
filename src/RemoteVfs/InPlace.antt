-- ===== src/RemoteVfs/InPlace.antt =====
-- `RemoteVfs::read` fills its buffer in place, which is what `CachedVfs` needs of the file system under
-- it; and the two together, the client's stack.
use rewofs.Base.{
  ℕ, ◌+◌, ◌≡◌, sym, ap, ◌∙◌, List, [], ◌∷◌, length, leb, Bool-cases, inl, inr, true, false,
}
use rewofs.Base.Paths.{Paths}
use rewofs.Base.Result.{
  Result, ok, raise, raise-ne-ok, ok-injective, system_error, undefined, Exception,
}
use rewofs.Content.{copy_at, add64}
use rewofs.Content.Blocks.{length-copy_at}
use rewofs.Content.Contract.{IsValid}
use rewofs.Vfs.{IdDispenser}
use rewofs.Vfs.Call.{Action, then_call_ok, throw}
use rewofs.Channel.{Channel, MessageType, ResultRead, wait}
use rewofs.RemoteVfs.{fragments, is_negative, send_reads, receive_reads, read, remote_vfs}
use rewofs.CachedVfs.{State, cached_vfs}
use rewofs.CachedVfs.Operations.{Operation, run_all, AllInRange}
use rewofs.CachedVfs.Valid.{run_all-IsValid}

module _ {P T : Type 0} (channel : Channel P T) where
  abbrev taken : List ℕ → ℕ → List ℕ → ResultRead → Action T (ℕ × List ℕ)
  taken mids n output message = elim (is_negative message.res) [
    | true ↦ throw (system_error message.res_errno)
    | false ↦ elim (leb (n + length message.bytes) (length output)) [
      | false ↦ throw undefined
      | true ↦
          receive_reads channel mids (add64 n (length message.bytes))
            (copy_at message.bytes n output)
    ]
  ]

  length-receive_reads :
      (mids : List ℕ) (n : ℕ) (output : List ℕ) (s s' : T) (m : ℕ) (bytes : List ℕ)
      → receive_reads channel mids n output s ≡ (ok (m, bytes), s')
      → length bytes ≡ length output
  unfolding receive_reads
  length-receive_reads [] n output s s' m bytes e =
      let k : (n, output) ≡ (m, bytes) =
        ok-injective (n, output) (m, bytes) (ap (λ (z : Result (ℕ × List ℕ) × T). z.0) e) in
      ap length (sym (ap (λ (p : ℕ × List ℕ). p.1) k))
  length-receive_reads (mid ∷ mids) n output s s' m bytes e =
      let (message, s1, e1, f) =
        then_call_ok (wait channel MessageType.result_read mid s) (taken mids n output) (m, bytes)
          s' e in
      elim (Bool-cases (is_negative message.res)) [
        | inl h ↦ absurd (thrown (system_error message.res_errno) s1 (rw (h, taken) at f))
        | inr h ↦ elim (Bool-cases (leb (n + length message.bytes) (length output))) [
          | inr k ↦ absurd (thrown undefined s1 (rw (h, taken, k) at f))
          | inl k ↦
              length-receive_reads mids (add64 n (length message.bytes))
                (copy_at message.bytes n output) s1 s' m bytes (rw (h, taken, k) at f)
              ∙ length-copy_at message.bytes n output
        ]
      ]
    where
      thrown :
          (x : Exception) (s1 : T)
          → ◌≡◌ {A = Result (ℕ × List ℕ) × T} (raise x, s1) (ok (m, bytes), s')
          → ⊥
      thrown x s1 g = raise-ne-ok x (m, bytes) (ap (λ (z : Result (ℕ × List ℕ) × T). z.0) g)

  -- A read that returns, whatever the server answers, has a buffer as long as the one it was given.
  pub length-read :
      (fh m offset : ℕ) (output bytes : List ℕ) (s : IdDispenser × T)
      → ((remote_vfs channel).read fh output offset s).0 ≡ ok (m, bytes)
      → length bytes ≡ length output
  unfolding remote_vfs read
  length-read fh m offset output bytes s e =
      let sent : List ℕ × T =
        send_reads channel fh offset (fragments (length output) 0 (length output)) s.1 in
      let after : Result (ℕ × List ℕ) × T = receive_reads channel sent.0 0 output sent.1 in
      length-receive_reads sent.0 0 output sent.1 after.1 m bytes
        (ap (λ (r : Result (ℕ × List ℕ)). (r, after.1)) e)

module _ {P T : Type 0} ⦃paths : Paths P⦄ (channel : Channel P T) where
  -- The client's whole stack, `CachedVfs` over `RemoteVfs`: on a valid cache every sequence of operations
  -- whose ranges end below 2 ^ 64 leaves a valid one, whatever the server answers, or where it does not.
  client-IsValid :
      (ops : List (Operation P)) (s : State P T)
      → AllInRange ops
      → IsValid s.cache.content
      → IsValid (run_all (cached_vfs (remote_vfs channel)) ops s).cache.content
  client-IsValid = run_all-IsValid (remote_vfs channel) (length-read channel)
