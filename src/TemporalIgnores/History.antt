-- ===== src/TemporalIgnores/History.antt =====
-- A history of calls, and the answer of `check` by all the calls of `add` before it.
use rewofs.Base.{
  ℕ, ◌-◌, ◌≤◌, ◌≡◌, refl, sym, ap, ◌∙◌, Bool, false, ◌||◌, ◌&&◌, List, [], ◌∷◌, ◌++◌, leb, find_if,
  arith, append-nil, append_assoc, Bool-cases, inl, inr,
}
use rewofs.Base.Paths.{Paths}
use rewofs.TemporalIgnores
use rewofs.TemporalIgnores.{Item, Items, is_found, same_path, lower_bound}
use rewofs.TemporalIgnores.LowerBound.{IsSorted, fresh, drop-lower_bound}

-- The calls, each with the time that its caller gives.
pub data Event (P : Type 0) : Type 0 where
  add : ℕ → P → Event P
  check : ℕ → P → Event P

abbrev pub time : {P : Type 0} → Event P → ℕ
time (Event.add now path) = now
time (Event.check now path) = now

-- The callers' times do not fall.
abbrev pub IsMonotone : {P : Type 0} → ℕ → List (Event P) → Type 0
IsMonotone lo [] = Unit
IsMonotone lo (e ∷ es) = (lo ≤ time e) × IsMonotone (time e) es

-- What was ever added.
abbrev pub added : {P : Type 0} → List (Event P) → Items P
added [] = []
added (Event.add now path ∷ es) = record { tp = now; path = path } ∷ added es
added (Event.check now path ∷ es) = added es

fresh-append :
    {P : Type 0} (old : ℕ) (xs ys : Items P) → fresh old (xs ++ ys) ≡ fresh old xs ++ fresh old ys
fresh-append old [] ys = refl
fresh-append old (x ∷ xs) ys = ground (arith, fresh-append old xs ys)

fresh-snoc :
    {P : Type 0} (c : ℕ) (i : Item P) (xs : Items P)
    → c ≤ i.tp
    → fresh c xs ++ i ∷ [] ≡ fresh c (xs ++ i ∷ [])
fresh-snoc c i xs h = ground (arith, fresh-append c xs (i ∷ []))

fresh-fresh :
    {P : Type 0} (c old : ℕ) (xs : Items P) → c ≤ old → fresh old (fresh c xs) ≡ fresh old xs
fresh-fresh c old [] h = refl
fresh-fresh c old (x ∷ xs) h = ground (arith, fresh-fresh c old xs h)

IsSorted-weaken :
    {P : Type 0} (lo hi : ℕ) (xs : Items P) → lo ≤ hi → IsSorted hi xs → IsSorted lo xs
IsSorted-weaken lo hi [] h s = tt
IsSorted-weaken lo hi (x ∷ xs) h s = (omega arith, s.1)

IsSorted-fresh : {P : Type 0} (lo c : ℕ) (xs : Items P) → IsSorted lo xs → IsSorted lo (fresh c xs)
IsSorted-fresh lo c [] s = tt
IsSorted-fresh lo c (x ∷ xs) s = elim (Bool-cases (leb c x.tp)) [
  | inl h ↦ rw h (s.0, IsSorted-fresh x.tp c xs s.1)
  | inr h ↦ rw h (IsSorted-fresh lo c xs (IsSorted-weaken lo x.tp xs s.0 s.1))
]

abbrev AtMost : {P : Type 0} → ℕ → Items P → Type 0
AtMost hi [] = Unit
AtMost hi (i ∷ is) = (i.tp ≤ hi) × AtMost hi is

AtMost-snoc :
    {P : Type 0} (lo hi : ℕ) (i : Item P) (xs : Items P)
    → lo ≤ hi
    → i.tp ≤ hi
    → AtMost lo xs
    → AtMost hi (xs ++ i ∷ [])
AtMost-snoc lo hi i [] h k a = (k, tt)
AtMost-snoc lo hi i (x ∷ xs) h k a = (omega arith, AtMost-snoc lo hi i xs h k a.1)

AtMost-mono : {P : Type 0} (lo hi : ℕ) (xs : Items P) → lo ≤ hi → AtMost lo xs → AtMost hi xs
AtMost-mono lo hi [] h a = tt
AtMost-mono lo hi (x ∷ xs) h a = (omega arith, AtMost-mono lo hi xs h a.1)

IsSorted-snoc :
    {P : Type 0} (lo hi : ℕ) (i : Item P) (xs : Items P)
    → IsSorted lo xs
    → AtMost hi xs
    → lo ≤ hi
    → hi ≤ i.tp
    → IsSorted lo (xs ++ i ∷ [])
IsSorted-snoc lo hi i [] s a h k = (omega arith, tt)
IsSorted-snoc lo hi i (x ∷ xs) s a h k = (s.0, IsSorted-snoc x.tp hi i xs s.1 a.1 a.0 k)

module _ {P : Type 0} ⦃paths : Paths P⦄ (ignore_duration : ℕ) where
  unfoldable pub run : List (Event P) → Items P → Items P
  unfolding TemporalIgnores.check
  run [] items = items
  run (Event.add now path ∷ es) items = run es (TemporalIgnores.add now path items)
  run (Event.check now path ∷ es) items =
      run es (TemporalIgnores.check ignore_duration now path items).1

  -- The path was added, at a time not before `now - ignore_duration`.
  abbrev pub recently : ℕ → P → Items P → Bool
  recently now path [] = false
  recently now path (i ∷ is) =
      (leb (now - ignore_duration) i.tp && same_path ignore_duration path i) || recently now path is

  found-fresh :
      (now : ℕ) (path : P) (xs : Items P)
      → is_found (find_if (same_path ignore_duration path) (fresh (now - ignore_duration) xs))
        ≡ recently now path xs
  found-fresh now path [] = refl
  found-fresh now path (x ∷ xs) = elim (Bool-cases (leb (now - ignore_duration) x.tp)) [
    | inr h ↦ rw h (found-fresh now path xs)
    | inl h ↦ elim (Bool-cases (same_path ignore_duration path x)) [
      | inl k ↦ rw (h, k)
      | inr k ↦ rw (h, k) (found-fresh now path xs)
    ]
  ]

  -- `check` on what is left of all that was added.
  check-fresh :
      (now c : ℕ) (path : P) (adds : Items P)
      → IsSorted 0 adds
      → c ≤ now - ignore_duration
      → TemporalIgnores.check ignore_duration now path (fresh c adds)
        ≡ (recently now path adds, fresh (now - ignore_duration) adds)
  unfolding TemporalIgnores.check
  check-fresh now c path adds s h = rw (
    drop-lower_bound (fresh c adds) (now - ignore_duration) 0 (IsSorted-fresh 0 c adds s),
    fresh-fresh c (now - ignore_duration) adds h,
    found-fresh now path adds,
  )

  check-run :
      (es : List (Event P)) (now lo c : ℕ) (path : P) (adds : Items P)
      → IsMonotone lo (es ++ Event.check now path ∷ [])
      → IsSorted 0 adds
      → AtMost lo adds
      → c ≤ lo - ignore_duration
      → (TemporalIgnores.check ignore_duration now path (run es (fresh c adds))).0
        ≡ recently now path (adds ++ added es)
  unfolding run
  check-run [] now lo c path adds m s a h =
      ap (λ (z : Bool × Items P). z.0) (check-fresh now c path adds s (omega arith))
      ∙ ap (recently now path) (sym (append-nil adds))
  check-run (Event.check t q ∷ es) now lo c path adds m s a h =
      ap (λ (z : Bool × Items P). (TemporalIgnores.check ignore_duration now path (run es z.1)).0)
        (check-fresh t c q adds s (omega arith))
      ∙ check-run es now t (t - ignore_duration) path adds m.1 s (AtMost-mono lo t adds m.0 a)
          (omega arith)
  check-run (Event.add t q ∷ es) now lo c path adds m s a h =
      let i : Item P = record { tp = t; path = q } in
      ap (λ (z : Items P). (TemporalIgnores.check ignore_duration now path (run es z)).0)
        (fresh-snoc c i adds (omega arith))
      ∙ check-run es now t c path (adds ++ i ∷ []) m.1
          (IsSorted-snoc 0 lo i adds s a (omega arith) m.0)
          (AtMost-snoc lo t i adds m.0 (omega arith) a) (omega arith)
      ∙ ap (recently now path) (append_assoc adds (i ∷ []) (added es))

  -- After calls whose times do not fall, `check` answers whether the path was added at a time not before
  -- `now - ignore_duration`, however many items the checks before have deleted.
  pub check-refines :
      (es : List (Event P)) (now : ℕ) (path : P)
      → IsMonotone 0 (es ++ Event.check now path ∷ [])
      → (TemporalIgnores.check ignore_duration now path (run es [])).0
        ≡ recently now path (added es)
  check-refines es now path m = check-run es now 0 0 path [] m tt tt (omega arith)
