-- ===== src/Base/Assoc.antt =====
-- `std::unordered_map` as an association list: the order of the entries is never observed.
use mathlib.Core.Path.{◌≡◌, refl}
use mathlib.Core.Logic.{ite, if_pos, if_neg, inl, inr}
use rewofs.Base.Tests.{or_else, or_else-none, Option-cases}
use mathlib.Core.List.{List, [], ◌∷◌}
use mathlib.Core.Option.{Option, none, some}
use native.Mathlib.Omega.{arith}

module _ {ℓ} {K V : Type ℓ} (dec : Discrete K) where
  unfoldable pub find : K → List (K × V) → Option V
  find k [] = none
  find k ((j, v) ∷ m) = ite (dec j k) (some v) (find k m)

  -- `m[k] = v`
  unfoldable pub put : K → V → List (K × V) → List (K × V)
  put k v [] = (k, v) ∷ []
  put k v ((j, w) ∷ m) = ite (dec j k) ((k, v) ∷ m) ((j, w) ∷ put k v m)

  unfoldable pub erase : K → List (K × V) → List (K × V)
  erase k [] = []
  erase k ((j, w) ∷ m) = ite (dec j k) (erase k m) ((j, w) ∷ erase k m)

  -- `m.emplace(k, v)`: an entry that is there stays as it is.
  unfoldable pub emplace : K → V → List (K × V) → List (K × V)
  unfolding put find
  emplace k v m = elim (find k m) [ none ↦ put k v m | some w ↦ m ]

  pub find-put :
      (k q : K) (v : V) (m : List (K × V)) → find q (put k v m) ≡ ite (dec k q) (some v) (find q m)
  unfolding find put
  find-put k q v [] = refl
  find-put k q v ((j, w) ∷ m) = ground (arith, find-put k q v m)

  pub find-erase : (k q : K) (m : List (K × V)) → find q (erase k m) ≡ ite (dec k q) none (find q m)
  unfolding find erase
  find-erase k q [] = ground arith
  find-erase k q ((j, w) ∷ m) = ground (arith, find-erase k q m)

  pub find-emplace :
      (k q : K) (v : V) (m : List (K × V))
      → find q (emplace k v m) ≡ or_else (find q m) (ite (dec k q) (some v) none)
  unfolding emplace
  find-emplace k q v m = elim (Option-cases (find k m)) [
    | inl e ↦
        rw (e, emplace)
          (rw (find-put k q v m) (elim (dec k q) [
            | yes p ↦ rw (if_pos _ p, if_pos _ p, ← p, e)
            | no p ↦ rw (if_neg _ p, if_neg _ p, or_else-none (find q m))
          ]))
    | inr (w, e) ↦
        rw (e, emplace)
          (elim (dec k q) [
            | yes p ↦ rw (if_pos _ p, ← p, e)
            | no p ↦ rw (if_neg _ p, or_else-none (find q m))
          ])
  ]
