-- ===== src/CachedVfs/Sub.antt =====
-- Calls of `CachedVfs` taken apart: what follows from one part's return for the whole.
use rewofs.Base.{◌≡◌, sym, ap, arith, inl, inr}
use rewofs.Base.Result.{Result, ok, Result-cases}
use rewofs.Cache.{Cache}
use rewofs.Vfs.{IdDispenser}
use rewofs.Vfs.Call.{Action}
use rewofs.CachedVfs.{State, on_cache, on_sub}

module _ {P S : Type 0} where
  pub on_cache_ok :
      (f : Cache P → Result (Cache P)) (u : Unit {0}) (s s' : State P S)
      → on_cache f s ≡ (ok u, s')
      → (f s.cache ≡ ok s'.cache) × (s' ≡ record s { cache = s'.cache })
  on_cache_ok f u s s' e = elim (Result-cases (f s.cache)) [
    | inl (c', h) ↦ (ground arith, ground arith)
    | inr (x, h) ↦ absurd (ground arith)
  ]

  pub on_sub_ok :
      {A : Type 0} (call : Action (IdDispenser × S) A) (a : A) (s s' : State P S)
      → on_sub call s ≡ (ok a, s')
      → ((call s.shared).0 ≡ ok a) × (s' ≡ record s { shared = (call s.shared).1 })
  on_sub_ok {A = A} call a s s' e =
      (ap (λ (z : Result A × State P S). z.0) e, sym (ap (λ (z : Result A × State P S). z.1) e))
