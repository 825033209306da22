-- ===== src/Worker/Queue.antt =====
-- `BlockingQueue` of src/rewofs/server/worker.hpp: the requests between the receiving thread and those
-- that handle them. A `pop` that would wait is not taken yet.
use rewofs.Base.{
  ◌≡◌, refl, sym, ap, ◌∙◌, Bool, true, false, List, [], ◌∷◌, ◌++◌, Option, none, some, append-nil,
  append_assoc, Option-cases, Bool-cases, inl, inr,
}
use mathlib.Core.List.{reverse, reverse-cons}

-- The front of the deque first.
pub record BlockingQueue (T : Type 0) : Type 0 where
  pub queue : List T
  pub stopped : Bool

-- `back` and `pop_back`
unfoldable take_back : {T : Type 0} → List T → Option (T × List T)
take_back [] = none
take_back (x ∷ xs) = elim (take_back xs) [
  | none ↦ some (x, [])
  | some (last, rest) ↦ some (last, x ∷ rest)
]

-- What a `pop` gives: an element, the signal to quit, or nothing yet.
pub data Popped (T : Type 0) : Type 0 where
  popped : T → Popped T
  quit_signal : Popped T
  blocked : Popped T

abbrev popped_of : {T : Type 0} → Option (T × List T) → BlockingQueue T → Popped T × BlockingQueue T
popped_of none q = (blocked, q)
popped_of (some (last, rest)) q = (popped last, record q { queue = rest })

module _ {T : Type 0} where
  unfoldable pub push : T → BlockingQueue T → BlockingQueue T
  push value q = record q { queue = value ∷ q.queue }

  unfoldable pub pop : BlockingQueue T → Popped T × BlockingQueue T
  unfolding take_back
  pop q = elim q.stopped [ true ↦ (quit_signal, q) | false ↦ popped_of (take_back q.queue) q ]

  unfoldable pub stop : BlockingQueue T → BlockingQueue T
  stop q = record q { stopped = true }

pub data Call (T : Type 0) : Type 0 where
  pushes : T → Call T
  pops : Call T
  stops : Call T

module _ {T : Type 0} where
  -- What the calls hand out, and the queue after them, in an interleaving of the threads.
  unfoldable pub calls : List (Call T) → BlockingQueue T → List T × BlockingQueue T
  calls [] q = ([], q)
  calls (Call.pushes value ∷ cs) q = calls cs (push value q)
  calls (Call.stops ∷ cs) q = calls cs (stop q)
  calls (Call.pops ∷ cs) q =
      let r = pop q in
      let rest = calls cs r.1 in
      (elim r.0 [ popped value ↦ value ∷ rest.0 | quit_signal ↦ rest.0 | blocked ↦ rest.0 ], rest.1)

  -- What the calls put in.
  abbrev pushed : List (Call T) → List T
  pushed [] = []
  pushed (Call.pushes value ∷ cs) = value ∷ pushed cs
  pushed (Call.stops ∷ cs) = pushed cs
  pushed (Call.pops ∷ cs) = pushed cs

  -- What waits, the oldest first.
  abbrev pub waiting : BlockingQueue T → List T
  waiting q = reverse q.queue

  take_back-reverse :
      (xs : List T)
      → reverse xs ≡ elim (take_back xs) [ none ↦ [] | some (last, rest) ↦ last ∷ reverse rest ]
  unfolding take_back
  take_back-reverse [] = refl
  take_back-reverse (x ∷ xs) = elim (Option-cases (take_back xs)) [
    | inl e ↦ reverse-cons x xs ∙ rw (take_back-reverse xs, e, take_back)
    | inr ((last, rest), e) ↦
        reverse-cons x xs
        ∙ rw (take_back-reverse xs, e, take_back)
            (ap (λ (r : List T). last ∷ r) (sym (reverse-cons x rest)))
  ]

  -- A `pop` hands out what waits at the head.
  abbrev pub handed : Popped T → List T
  handed (popped value) = value ∷ []
  handed quit_signal = []
  handed blocked = []

  waiting-pop : (q : BlockingQueue T) → waiting q ≡ handed (pop q).0 ++ waiting (pop q).1
  unfolding pop
  waiting-pop q = elim (Bool-cases q.stopped) [
    | inl h ↦ rw (h, pop)
    | inr h ↦ elim (Option-cases (take_back q.queue)) [
      | inl e ↦ rw (h, pop, e)
      | inr ((last, rest), e) ↦ take_back-reverse q.queue ∙ rw (h, pop, e)
    ]
  ]

  calls-pops :
      (cs : List (Call T)) (q : BlockingQueue T)
      → (calls (Call.pops ∷ cs) q).0 ≡ handed (pop q).0 ++ (calls cs (pop q).1).0
  unfolding calls
  calls-pops cs q =
      elim (pop q).0
        as (λ (p : Popped T).
          (elim p as (λ _. List T) [
            | popped value ↦ value ∷ (calls cs (pop q).1).0
            | quit_signal ↦ (calls cs (pop q).1).0
            | blocked ↦ (calls cs (pop q).1).0
          ])
          ≡ handed p ++ (calls cs (pop q).1).0) [
            | popped value ↦ refl
            | quit_signal ↦ refl
            | blocked ↦ refl
          ]

  -- In every interleaving of calls, what is handed out and what still waits is, in order, what waited and
  -- what was put in: nothing is lost, doubled or overtaken, before and after a `stop`.
  pub calls-fifo :
      (cs : List (Call T)) (q : BlockingQueue T)
      → (calls cs q).0 ++ waiting (calls cs q).1 ≡ waiting q ++ pushed cs
  unfolding calls push stop
  calls-fifo [] q = sym (append-nil (waiting q))
  calls-fifo (Call.pushes value ∷ cs) q =
      calls-fifo cs (push value q)
      ∙ ap (λ (r : List T). r ++ pushed cs) (reverse-cons value q.queue)
      ∙ append_assoc (waiting q) (value ∷ []) (pushed cs)
  calls-fifo (Call.stops ∷ cs) q = calls-fifo cs (stop q)
  calls-fifo (Call.pops ∷ cs) q =
      ap (λ (r : List T). r ++ waiting (calls cs (pop q).1).1) (calls-pops cs q)
      ∙ append_assoc (handed (pop q).0) (calls cs (pop q).1).0 (waiting (calls cs (pop q).1).1)
      ∙ ap (λ (r : List T). handed (pop q).0 ++ r) (calls-fifo cs (pop q).1)
      ∙ sym (append_assoc (handed (pop q).0) (waiting (pop q).1) (pushed cs))
      ∙ ap (λ (r : List T). r ++ pushed cs) (sym (waiting-pop q))
