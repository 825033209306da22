-- ===== src/Wire/Sorting.antt =====
-- A `std::sort` of the queues for the tests: insertion by descending priority.
use rewofs.Base.{
  ℕ, ◌≤◌, ◌≡◌, ◌≢◌, refl, sym, ap, ◌∙◌, true, false, List, [], ◌∷◌, Option, none, some, ite, if_pos,
  if_neg, arith, ℕ_discrete, leb, Bool-cases, inl, inr,
}
use mathlib.Core.Option.{none-ne-some}
use rewofs.Base.Assoc.{find}
use rewofs.Transport.{Queue}
use rewofs.Transport.Priority.{Distinct, Below, Descending}
use rewofs.Wire.Pops.{Sorts}

abbrev Queues : Type 0
Queues = List (ℕ × Queue)

unfoldable pub insert : ℕ → Queue → Queues → Queues
insert r q [] = (r, q) ∷ []
insert r q ((s, t) ∷ qs) =
    let rest = insert r q qs in
    elim (leb t.priority q.priority) [ true ↦ (r, q) ∷ (s, t) ∷ qs | false ↦ (s, t) ∷ rest ]

unfoldable pub by_priority : Queues → Queues
unfolding insert
by_priority [] = []
by_priority ((r, q) ∷ qs) = insert r q (by_priority qs)

find-insert :
    (r x : ℕ) (q : Queue) (qs : Queues)
    → find ℕ_discrete r qs ≡ none
    → find ℕ_discrete x (insert r q qs) ≡ ite (ℕ_discrete r x) (some q) (find ℕ_discrete x qs)
unfolding find insert
find-insert r x q [] n = refl
find-insert r x q ((s, t) ∷ qs) n = elim (ℕ_discrete s r) [
  | yes k ↦ absurd (none-ne-some t (sym n ∙ if_pos (ℕ_discrete s r) k _ _))
  | no k ↦
      let before : find ℕ_discrete r qs ≡ none = sym (if_neg (ℕ_discrete s r) k _ _) ∙ n in
      elim (Bool-cases (leb t.priority q.priority)) [
        | inl e ↦ rw (e, insert)
        | inr e ↦
            rw (e, insert)
              (elim (ℕ_discrete s x) [
                | yes h ↦
                    let other : r ≢ x = λ g. k (h ∙ sym g) in
                    if_pos (ℕ_discrete s x) h _ _
                    ∙ sym (if_neg (ℕ_discrete r x) other _ _ ∙ if_pos (ℕ_discrete s x) h _ _)
                | no h ↦
                    if_neg (ℕ_discrete s x) h _ _
                    ∙ find-insert r x q qs before
                    ∙ ap (λ (o : Option Queue). ite (ℕ_discrete r x) (some q) o)
                        (sym (if_neg (ℕ_discrete s x) h _ _))
              ])
      ]
]

Distinct-insert :
    (r : ℕ) (q : Queue) (qs : Queues)
    → find ℕ_discrete r qs ≡ none
    → Distinct qs
    → Distinct (insert r q qs)
unfolding find insert
Distinct-insert r q [] n d = (refl, tt)
Distinct-insert r q ((s, t) ∷ qs) n d = elim (ℕ_discrete s r) [
  | yes k ↦ absurd (none-ne-some t (sym n ∙ if_pos (ℕ_discrete s r) k _ _))
  | no k ↦
      let before : find ℕ_discrete r qs ≡ none = sym (if_neg (ℕ_discrete s r) k _ _) ∙ n in
      elim (Bool-cases (leb t.priority q.priority)) [
        | inl e ↦ rw (e, insert) (n, d)
        | inr e ↦
            let other : r ≢ s = λ g. k (sym g) in
            rw (e, insert)
              (
                find-insert r s q qs before ∙ if_neg (ℕ_discrete r s) other _ _ ∙ d.0,
                Distinct-insert r q qs before d.1,
              )
      ]
]

Below-weaken : (p p' : ℕ) (qs : Queues) → p ≤ p' → Below p qs → Below p' qs
Below-weaken p p' [] h b = tt
Below-weaken p p' ((s, t) ∷ qs) h b = (omega (arith, b.0), Below-weaken p p' qs h b.1)

Below-insert :
    (p r : ℕ) (q : Queue) (qs : Queues) → q.priority ≤ p → Below p qs → Below p (insert r q qs)
unfolding insert
Below-insert p r q [] h b = (h, tt)
Below-insert p r q ((s, t) ∷ qs) h b = elim (Bool-cases (leb t.priority q.priority)) [
  | inl e ↦ rw (e, insert) (h, b)
  | inr e ↦ rw (e, insert) (b.0, Below-insert p r q qs h b.1)
]

Descending-insert : (r : ℕ) (q : Queue) (qs : Queues) → Descending qs → Descending (insert r q qs)
unfolding insert
Descending-insert r q [] d = (tt, tt)
Descending-insert r q ((s, t) ∷ qs) d = elim (Bool-cases (leb t.priority q.priority)) [
  | inl e ↦
      let le : t.priority ≤ q.priority = ground arith in
      rw (e, insert) ((le, Below-weaken t.priority q.priority qs le d.0), d)
  | inr e ↦
      let le : q.priority ≤ t.priority = ground arith in
      rw (e, insert) (Below-insert t.priority r q qs le d.0, Descending-insert r q qs d.1)
]

pub by_priority-Sorts : Sorts by_priority
unfolding by_priority find
by_priority-Sorts [] d = (tt, tt, λ r. refl)
by_priority-Sorts ((r, q) ∷ qs) d =
    let (unique, descending, same) = by_priority-Sorts qs d.1 in
    let missing : find ℕ_discrete r (by_priority qs) ≡ none = same r ∙ d.0 in
    (
      Distinct-insert r q (by_priority qs) missing unique,
      Descending-insert r q (by_priority qs) descending,
      λ x.
          find-insert r x q (by_priority qs) missing
          ∙ ap (λ (o : Option Queue). ite (ℕ_discrete r x) (some q) o) (same x),
    )
