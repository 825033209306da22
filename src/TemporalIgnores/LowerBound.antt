-- ===== src/TemporalIgnores/LowerBound.antt =====
-- The binary search of `check` on items that are sorted by time.
use rewofs.Base.{
  ℕ, zero, suc, ◌+◌, ◌-◌, ◌/◌, ◌≤◌, ◌<◌, ◌≡◌, refl, sym, ◌∙◌, true, false, [], ◌∷◌, some, length,
  drop, get_elem?, get_elem?_within, get_elem?_past, leb, ltb, if◌then◌else◌, arith, Bool-cases,
  inl, inr,
}
use mathlib.Core.Option.{none-ne-some}
use rewofs.TemporalIgnores.{Item, Items, lower_bound_loop, lower_bound}

-- Sorted by time, none before `lo`.
abbrev pub IsSorted : {P : Type 0} → ℕ → Items P → Type 0
IsSorted lo [] = Unit
IsSorted lo (i ∷ is) = (lo ≤ i.tp) × IsSorted i.tp is

-- The items of the time `old` or later, in order.
abbrev pub fresh : {P : Type 0} → ℕ → Items P → Items P
fresh old [] = []
fresh old (i ∷ is) = if leb old i.tp then i ∷ fresh old is else fresh old is

-- The items before the index `r` are before `old`, and no later one is.
abbrev Splits : {P : Type 0} → Items P → ℕ → ℕ → Type 0
Splits {P = P} items old r =
    ((j : ℕ) (i : Item P) → j < r → get_elem? items j ≡ some i → i.tp < old)
    × ((j : ℕ) (i : Item P) → r ≤ j → get_elem? items j ≡ some i → old ≤ i.tp)

IsSorted-le :
    {P : Type 0} (lo : ℕ) (items : Items P) (j : ℕ) (i : Item P)
    → IsSorted lo items
    → get_elem? items j ≡ some i
    → lo ≤ i.tp
IsSorted-le lo [] j i s e = absurd (ground arith)
IsSorted-le lo (x ∷ xs) zero i s e = ground arith
IsSorted-le lo (x ∷ xs) (suc j) i s e = omega (arith, IsSorted-le x.tp xs j i s.1 e)

IsSorted-mono :
    {P : Type 0} (lo : ℕ) (items : Items P) (j k : ℕ) (a b : Item P)
    → IsSorted lo items
    → j ≤ k
    → get_elem? items j ≡ some a
    → get_elem? items k ≡ some b
    → a.tp ≤ b.tp
IsSorted-mono lo [] j k a b s h e f = absurd (ground arith)
IsSorted-mono lo (x ∷ xs) zero zero a b s h e f = ground arith
IsSorted-mono lo (x ∷ xs) zero (suc k) a b s h e f = ground (arith, IsSorted-le x.tp xs k b s.1 f)
IsSorted-mono lo (x ∷ xs) (suc j) zero a b s h e f = absurd (omega arith)
IsSorted-mono lo (x ∷ xs) (suc j) (suc k) a b s h e f =
    IsSorted-mono x.tp xs j k a b s.1 (omega arith) e f

drop-fresh :
    {P : Type 0} (items : Items P) (old r : ℕ) → Splits items old r → drop r items ≡ fresh old items
drop-fresh [] old zero s = refl
drop-fresh [] old (suc r) s = refl
drop-fresh (x ∷ xs) old zero s = ground (
  arith,
  s.1 0 x (omega arith) refl,
  drop-fresh xs old zero
      ((λ j i h e. absurd (omega arith)), λ j i h e. s.1 (suc j) i (omega arith) e),
)
drop-fresh (x ∷ xs) old (suc r) s = ground (
  arith,
  s.0 0 x (omega arith) refl,
  drop-fresh xs old r
      ((λ j i h e. s.0 (suc j) i (omega arith) e), λ j i h e. s.1 (suc j) i (omega arith) e),
)

module _ {P : Type 0} (items : Items P) (old fuel first n : ℕ) (m : Item P) where
  loop_before :
      get_elem? items (first + suc n / 2) ≡ some m
      → ltb m.tp old ≡ true
      → lower_bound_loop (suc fuel) items old first (suc n)
        ≡ lower_bound_loop fuel items old (first + suc n / 2 + 1) (suc n - suc n / 2 - 1)
  unfolding lower_bound_loop
  loop_before e before = rw (e, lower_bound_loop, before)

  loop_after :
      get_elem? items (first + suc n / 2) ≡ some m
      → ltb m.tp old ≡ false
      → lower_bound_loop (suc fuel) items old first (suc n)
        ≡ lower_bound_loop fuel items old first (suc n / 2)
  unfolding lower_bound_loop
  loop_after e after = rw (e, lower_bound_loop, after)

module _ {P : Type 0} (items : Items P) (old lo : ℕ) (sorted : IsSorted lo items) where
  loop-Splits :
      (fuel first len : ℕ)
      → len ≤ fuel
      → first + len ≤ length items
      → ((j : ℕ) (i : Item P) → j < first → get_elem? items j ≡ some i → i.tp < old)
      → ((j : ℕ) (i : Item P) → first + len ≤ j → get_elem? items j ≡ some i → old ≤ i.tp)
      → Splits items old (lower_bound_loop fuel items old first len)
  unfolding lower_bound_loop
  loop-Splits zero first zero h f below above = (below, λ j i k. above j i (omega arith))
  loop-Splits zero first (suc n) h f below above = elim h [ ]
  loop-Splits (suc fuel) first zero h f below above = (below, λ j i k. above j i (omega arith))
  loop-Splits (suc fuel) first (suc n) h f below above =
      let half : ℕ = suc n / 2 in
      let (m, e) = get_elem?_within (first + half) items (omega arith) in
      elim (Bool-cases (ltb m.tp old)) [
        | inl before ↦ rw (loop_before items old fuel first n m e before) (
            loop-Splits fuel (first + half + 1) (suc n - half - 1) (omega arith) (omega arith)
              (λ j i k g.
                ground
                  (arith, IsSorted-mono lo items j (first + half) i m sorted (omega arith) g e))
              (λ j i k. above j i (omega arith)))
        | inr after ↦ rw (loop_after items old fuel first n m e after) (
            loop-Splits fuel first half (omega arith) (omega arith) below
              (λ j i k g. ground (arith, IsSorted-mono lo items (first + half) j m i sorted k e g)))
      ]

  -- What is behind the bound are the items that are not before it.
  pub drop-lower_bound : drop (lower_bound items old) items ≡ fresh old items
  unfolding lower_bound
  drop-lower_bound =
      drop-fresh items old (lower_bound_loop (length items) items old 0 (length items)) (
        loop-Splits (length items) 0 (length items) (omega arith) (omega arith)
          (λ j i k. absurd (omega arith))
          λ j i k e. absurd (none-ne-some i (sym (get_elem?_past j items (omega arith)) ∙ e)))
