-- ===== src/Wire/Pops.antt =====
-- While a message waits `pop` hands one out, and there is one less.
use rewofs.Base.{
  ℕ, suc, ◌+◌, ◌≡◌, ◌≢◌, refl, sym, ap, ◌∙◌, Bool, true, false, List, [], ◌∷◌, Option, some, if_pos,
  if_neg, length, arith, ℕ_discrete, inl, inr,
}
use mathlib.Core.Option.{none-ne-some, some-injective}
use rewofs.Base.Assoc.{find, put, find-put}
use rewofs.Transport.{Bytes, Queue, Serializer, any_pending, is_consumable, first_pending, pop}
use rewofs.Transport.Priority.{Distinct, Arranged, first_pending_lem, queue-cases}

-- What `std::sort` promises, on queues that are each there once.
abbrev pub Sorts : (List (ℕ × Queue) → List (ℕ × Queue)) → Type 0
Sorts sort = (queues : List (ℕ × Queue)) → Distinct queues → Arranged (sort queues) queues

-- How many messages wait.
abbrev pub total : List (ℕ × Queue) → ℕ
total [] = 0
total ((r, q) ∷ qs) = length q.queue + total qs

cons_not_nil : (m : Bytes) (ms : List Bytes) → ◌≢◌ {A = List Bytes} (m ∷ ms) []
cons_not_nil m ms h = cc

true_not_false : ◌≢◌ {A = Bool} true false
true_not_false h = cc

any_pending-find :
    (qs : List (ℕ × Queue))
    → Distinct qs
    → any_pending qs ≡ true
    → (r : ℕ) × (q : Queue) × (find ℕ_discrete r qs ≡ some q) × (q.queue ≢ [])
unfolding any_pending find
any_pending-find [] d e = cc
any_pending-find ((r, q) ∷ qs) d e = elim (queue-cases q) [
  | inl h ↦
      let (s, t, f, n) = any_pending-find qs d.1 (rw (h, any_pending) at e) in
      (
        s,
        t,
        elim (ℕ_discrete r s) [
          | yes k ↦ absurd (none-ne-some t (sym d.0 ∙ ap (λ (i : ℕ). find ℕ_discrete i qs) k ∙ f))
          | no k ↦ if_neg (ℕ_discrete r s) k _ _ ∙ f
        ],
        n,
      )
  | inr (m, ms, h) ↦ (r, q, if_pos (ℕ_discrete r r) refl _ _, λ g. cons_not_nil m ms (sym h ∙ g))
]

find_first :
    (qs : List (ℕ × Queue)) (r : ℕ) (q : Queue)
    → find ℕ_discrete r qs ≡ some q
    → q.queue ≢ []
    → (x : ℕ × Queue × Bytes × List Bytes) × (first_pending qs ≡ some x)
unfolding first_pending find
find_first [] r q f n = absurd (none-ne-some q f)
find_first ((s, t) ∷ qs) r q f n = elim (queue-cases t) [
  | inr (m, ms, h) ↦ (
    (s, t, m, ms),
    ap
        (λ (b : List Bytes). (elim b as (λ _. Option (ℕ × Queue × Bytes × List Bytes)) [
          | [] ↦ first_pending qs
          | ◌∷◌ x xs ↦ some (s, t, x, xs)
        ]))
        h,
  )
  | inl h ↦ elim (ℕ_discrete s r) [
    | yes k ↦
        let same = some-injective t q (sym (if_pos (ℕ_discrete s r) k _ _) ∙ f) in
        absurd (n (ap (λ (u : Queue). u.queue) (sym same) ∙ h))
    | no k ↦
        let (x, g) = find_first qs r q (sym (if_neg (ℕ_discrete s r) k _ _) ∙ f) n in
        (x, rw (h, first_pending) g)
  ]
]

total-put :
    (qs : List (ℕ × Queue)) (r : ℕ) (q : Queue) (m : Bytes) (ms : List Bytes)
    → find ℕ_discrete r qs ≡ some q
    → q.queue ≡ m ∷ ms
    → total qs ≡ suc (total (put ℕ_discrete r (record q { queue = ms }) qs))
unfolding find put
total-put [] r q m ms f e = absurd (none-ne-some q f)
total-put ((s, t) ∷ qs) r q m ms f e = elim (ℕ_discrete s r) [
  | yes k ↦
      let same : t ≡ q = some-injective t q (sym (if_pos (ℕ_discrete s r) k _ _) ∙ f) in
      let long : length t.queue ≡ suc (length ms) =
        ap (λ (u : Queue). length u.queue) same ∙ ap length e in
      rw (if_pos (ℕ_discrete s r) k) (omega (arith, long))
  | no k ↦
      rw (if_neg (ℕ_discrete s r) k)
        (omega (arith, total-put qs r q m ms (sym (if_neg (ℕ_discrete s r) k _ _) ∙ f) e))
]

Distinct-put :
    (qs : List (ℕ × Queue)) (r : ℕ) (q t : Queue)
    → Distinct qs
    → find ℕ_discrete r qs ≡ some q
    → Distinct (put ℕ_discrete r t qs)
unfolding find put
Distinct-put [] r q t d f = absurd (none-ne-some q f)
Distinct-put ((s, u) ∷ qs) r q t d f = elim (ℕ_discrete s r) [
  | yes k ↦ rw (if_pos (ℕ_discrete s r) k) (rw (← k) d.0, d.1)
  | no k ↦
      let other : r ≢ s = λ h. k (sym h) in
      rw (if_neg (ℕ_discrete s r) k) (
        find-put ℕ_discrete r s t qs ∙ if_neg (ℕ_discrete r s) other _ _ ∙ d.0,
        Distinct-put qs r q t d.1 (sym (if_neg (ℕ_discrete s r) k _ _) ∙ f),
      )
]

-- A round of the loop of `run_writer`.
pub pop_pending :
    (sort : List (ℕ × Queue) → List (ℕ × Queue)) (s : Serializer)
    → Sorts sort
    → Distinct s.queues
    → is_consumable s ≡ true
    → (ref : ℕ) × (m : Bytes) × (s1 : Serializer) × (pop (sort s.queues) s ≡ (some (ref, m), s1))
      × Distinct s1.queues
      × (total s.queues ≡ suc (total s1.queues))
unfolding pop
pop_pending sort s sorts d e =
    let (r, q, f, n) = any_pending-find s.queues d e in
    let (unique, descending, same) = sorts s.queues d in
    let (x, g) = find_first (sort s.queues) r q (same r ∙ f) n in
    let (there, long, most) =
      first_pending_lem (sort s.queues) x.0 x.1 x.2 x.3 unique descending g in
    let held = sym (same x.0) ∙ there in
    (
      x.0,
      x.2,
      record s { queues = put ℕ_discrete x.0 (record x.1 { queue = x.3 }) s.queues },
      rw (g, pop),
      Distinct-put s.queues x.0 x.1 (record x.1 { queue = x.3 }) d held,
      total-put s.queues x.0 x.1 x.2 x.3 held long,
    )

-- When none waits every queue is empty.
pub none_pending :
    (qs : List (ℕ × Queue)) (r : ℕ) (q : Queue)
    → any_pending qs ≡ false
    → find ℕ_discrete r qs ≡ some q
    → q.queue ≡ []
unfolding any_pending find
none_pending [] r q e f = absurd (none-ne-some q f)
none_pending ((s, t) ∷ qs) r q e f = elim (queue-cases t) [
  | inr (m, ms, h) ↦ absurd (true_not_false (rw (h, any_pending) at e))
  | inl h ↦ elim (ℕ_discrete s r) [
    | yes k ↦
        ap (λ (u : Queue). u.queue)
          (sym (some-injective t q (sym (if_pos (ℕ_discrete s r) k _ _) ∙ f)))
        ∙ h
    | no k ↦
        none_pending qs r q (rw (h, any_pending) at e) (sym (if_neg (ℕ_discrete s r) k _ _) ∙ f)
  ]
]

pub none_total : (qs : List (ℕ × Queue)) → total qs ≡ 0 → any_pending qs ≡ false
unfolding any_pending
none_total [] e = refl
none_total ((s, t) ∷ qs) e = elim (queue-cases t) [
  | inr (m, ms, h) ↦ absurd (omega (arith, ap length h))
  | inl h ↦ rw (h, any_pending) (none_total qs (omega arith))
]
