-- ===== src/Transport/Priority.antt =====
-- `Serializer::pop` takes from a queue of the highest priority.
use rewofs.Base.{
  ℕ, ◌⊎◌, ◌≤◌, ◌≡◌, ◌≢◌, refl, sym, ap, ◌∙◌, List, [], ◌∷◌, Option, none, some, ite, if_pos, if_neg,
  arith, ℕ_discrete, Option-cases, inl, inr,
}
use mathlib.Core.Option.{none-ne-some, some-injective}
use rewofs.Base.Assoc.{find, put, find-put}
use rewofs.Transport.{Bytes, Queue, Serializer, first_pending, pop}

abbrev pub Distinct : List (ℕ × Queue) → Type 0
Distinct [] = Unit
Distinct ((r, q) ∷ qs) = (find ℕ_discrete r qs ≡ none) × Distinct qs

abbrev pub Below : ℕ → List (ℕ × Queue) → Type 0
Below p [] = Unit
Below p ((r, q) ∷ qs) = (q.priority ≤ p) × Below p qs

abbrev pub Descending : List (ℕ × Queue) → Type 0
Descending [] = Unit
Descending ((r, q) ∷ qs) = Below q.priority qs × Descending qs

-- What `std::sort` promises: the queues, each once, the higher priorities first.
abbrev pub Arranged : List (ℕ × Queue) → List (ℕ × Queue) → Type 0
Arranged sorted queues =
    Distinct sorted
    × Descending sorted
    × ((r : ℕ) → find ℕ_discrete r sorted ≡ find ℕ_discrete r queues)

-- The entries behind a number are not of higher priority, if they hold a message at all.
abbrev AtMost : ℕ → List (ℕ × Queue) → Type 0
AtMost p queues =
    (r : ℕ) (q : Queue) → find ℕ_discrete r queues ≡ some q → q.queue ≢ [] → q.priority ≤ p

Below-find : (p : ℕ) (qs : List (ℕ × Queue)) → Below p qs → AtMost p qs
unfolding find
Below-find p [] b r q e n = absurd (none-ne-some q e)
Below-find p ((s, t) ∷ qs) b r q e n = elim (ℕ_discrete s r) [
  | yes k ↦
      let same : t ≡ q = some-injective t q (sym (if_pos (ℕ_discrete s r) k _ _) ∙ e) in
      rw (← same) b.0
  | no k ↦ Below-find p qs b.1 r q (sym (if_neg (ℕ_discrete s r) k _ _) ∙ e) n
]

pub queue-cases :
    (q : Queue) → (q.queue ≡ []) ⊎ ((m : Bytes) × (ms : List Bytes) × (q.queue ≡ m ∷ ms))
queue-cases q = go q.queue
  where
    go : (ms : List Bytes) → (ms ≡ []) ⊎ ((m : Bytes) × (rest : List Bytes) × (ms ≡ m ∷ rest))
    go [] = inl refl
    go (m ∷ ms) = inr (m, ms, refl)

pub first_pending_lem :
    (sorted : List (ℕ × Queue)) (ref : ℕ) (q : Queue) (m : Bytes) (ms : List Bytes)
    → Distinct sorted
    → Descending sorted
    → first_pending sorted ≡ some (ref, q, m, ms)
    → (find ℕ_discrete ref sorted ≡ some q) × (q.queue ≡ m ∷ ms) × AtMost q.priority sorted
unfolding first_pending find
first_pending_lem [] ref q m ms d o e = absurd (none-ne-some (ref, q, m, ms) e)
first_pending_lem ((r0, q0) ∷ qs) ref q m ms d o e = elim (queue-cases q0) [
  | inl h ↦
      let (e1, e2, e3) = first_pending_lem qs ref q m ms d.1 o.1 (rw (h, first_pending) at e) in
      (
        elim (ℕ_discrete r0 ref) [
          | yes k ↦ absurd (none-ne-some q (sym d.0 ∙ rw k e1))
          | no k ↦ if_neg (ℕ_discrete r0 ref) k _ _ ∙ e1
        ],
        e2,
        λ r t f n. elim (ℕ_discrete r0 r) [
          | yes k ↦
              let same : q0 ≡ t = some-injective q0 t (sym (if_pos (ℕ_discrete r0 r) k _ _) ∙ f) in
              absurd (n (rw same at h))
          | no k ↦ e3 r t (sym (if_neg (ℕ_discrete r0 r) k _ _) ∙ f) n
        ],
      )
  | inr (x, rest, h) ↦
      let k : ◌≡◌ {A = ℕ × Queue × Bytes × List Bytes} (r0, q0, x, rest) (ref, q, m, ms) =
        some-injective _ _ (rw (h, first_pending) at e) in
      let kr : r0 ≡ ref = ap (λ (z : ℕ × Queue × Bytes × List Bytes). z.0) k in
      let kq : q0 ≡ q = ap (λ (z : ℕ × Queue × Bytes × List Bytes). z.1) k in
      let km : x ∷ rest ≡ m ∷ ms = ap (λ (z : ℕ × Queue × Bytes × List Bytes). z.2 ∷ z.3) k in
      (
        if_pos (ℕ_discrete r0 ref) kr _ _ ∙ ap some kq,
        rw (← kq) (h ∙ km),
        λ r t f n. elim (ℕ_discrete r0 r) [
          | yes g ↦
              let same : q0 ≡ t = some-injective q0 t (sym (if_pos (ℕ_discrete r0 r) g _ _) ∙ f) in
              rw (← same, kq) (omega arith)
          | no g ↦
              rw (← kq)
                (Below-find q0.priority qs o.0 r t (sym (if_neg (ℕ_discrete r0 r) g _ _) ∙ f) n)
        ],
      )
]

-- For any arrangement of the queues by descending priority, in whatever order `std::sort` leaves
-- those of one priority: a message that `pop` hands out is the first of its queue, no queue with a
-- message has a higher priority, and it is taken out of its queue while the other queues stay as
-- they are.
pub pop-highest :
    (sorted : List (ℕ × Queue)) (s s' : Serializer) (ref : ℕ) (m : Bytes)
    → Arranged sorted s.queues
    → pop sorted s ≡ (some (ref, m), s')
    → (q : Queue) × (ms : List Bytes) × (find ℕ_discrete ref s.queues ≡ some q)
      × (q.queue ≡ m ∷ ms)
      × ((r : ℕ) (t : Queue)
          → find ℕ_discrete r s.queues ≡ some t
          → t.queue ≢ []
          → t.priority ≤ q.priority)
      × ((r : ℕ)
          → find ℕ_discrete r s'.queues
            ≡ ite (ℕ_discrete ref r) (some (record q { queue = ms })) (find ℕ_discrete r s.queues))
unfolding pop
pop-highest sorted s s' ref m (d, o, same) e = elim (Option-cases (first_pending sorted)) [
  | inl f ↦ absurd (ground arith)
  | inr (found, f) ↦
      let after : Serializer = record s {
        queues = put ℕ_discrete found.0 (record found.1 { queue = found.3 }) s.queues;
      } in
      let g : ◌≡◌ {A = Option (ℕ × Bytes) × Serializer} (some (found.0, found.2), after)
          (some (ref, m), s') =
        rw (f, pop) at e in
      let k : ◌≡◌ {A = ℕ × Bytes} (found.0, found.2) (ref, m) =
        some-injective _ _ (ap (λ (z : Option (ℕ × Bytes) × Serializer). z.0) g) in
      let kr : found.0 ≡ ref = ap (λ (z : ℕ × Bytes). z.0) k in
      let km : found.2 ≡ m = ap (λ (z : ℕ × Bytes). z.1) k in
      let ks : after ≡ s' = ap (λ (z : Option (ℕ × Bytes) × Serializer). z.1) g in
      let (e1, e2, e3) = first_pending_lem sorted found.0 found.1 found.2 found.3 d o f in
      (
        found.1,
        found.3,
        sym (same ref) ∙ rw kr at e1,
        rw km at e2,
        λ r t h n. e3 r t (same r ∙ h) n,
        λ r.
            rw (← ks, ← kr)
              (find-put ℕ_discrete found.0 r (record found.1 { queue = found.3 }) s.queues),
      )
]
