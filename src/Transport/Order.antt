-- ===== src/Transport/Order.antt =====
-- No message is repeated or overtaken inside its queue, and none is lost but with its queue.
use rewofs.Base.{
  ℕ, ◌+◌, ◌%◌, ◌^◌, ◌≡◌, sym, ap, ◌∙◌, List, [], ◌∷◌, ◌++◌, append_assoc, append-nil, Option, none,
  some, ite, if_pos, if_neg, arith, ℕ_discrete, Option-cases, inl, inr,
}
use rewofs.Base.Assoc.{find, put, find-put, find-erase}
use rewofs.Base.Result.{Result, ok, ok-injective}
use rewofs.Transport.{Bytes, Queue, Serializer, new_queue, add_command, pop, drop_queue}
use rewofs.Transport.Priority.{Arranged, pop-highest}

abbrev contents : Option Queue → List Bytes
contents none = []
contents (some q) = q.queue

-- The messages that wait in a queue.
abbrev pub pending : ℕ → Serializer → List Bytes
pending ref s = contents (find ℕ_discrete ref s.queues)

-- What happens to the queues: one is made, a message is put into one, or taken out, and one ends, with
-- the messages that wait in it.
pub data Event : Type 0 where
  opened : ℕ → Event
  added : ℕ → Bytes → Event
  popped : ℕ → Bytes → Event
  dropped : ℕ → List Bytes → Event

abbrev pub added_to : ℕ → List Event → List Bytes
added_to ref [] = []
added_to ref (Event.added r m ∷ es) = ite (ℕ_discrete r ref) (m ∷ added_to ref es) (added_to ref es)
added_to ref (Event.opened r ∷ es) = added_to ref es
added_to ref (Event.popped r m ∷ es) = added_to ref es
added_to ref (Event.dropped r ms ∷ es) = added_to ref es

abbrev pub popped_from : ℕ → List Event → List Bytes
popped_from ref [] = []
popped_from ref (Event.opened r ∷ es) = popped_from ref es
popped_from ref (Event.added r m ∷ es) = popped_from ref es
popped_from ref (Event.dropped r ms ∷ es) = popped_from ref es
popped_from ref (Event.popped r m ∷ es) =
    ite (ℕ_discrete r ref) (m ∷ popped_from ref es) (popped_from ref es)

-- What has left a queue, in order: taken out, or thrown away with it.
abbrev pub gone_from : ℕ → List Event → List Bytes
gone_from ref [] = []
gone_from ref (Event.opened r ∷ es) = gone_from ref es
gone_from ref (Event.added r m ∷ es) = gone_from ref es
gone_from ref (Event.popped r m ∷ es) =
    ite (ℕ_discrete r ref) (m ∷ gone_from ref es) (gone_from ref es)
gone_from ref (Event.dropped r ms ∷ es) =
    ite (ℕ_discrete r ref) (ms ++ gone_from ref es) (gone_from ref es)

-- Calls of `new_queue`, `add_command`, `pop` and `drop_queue` that return, from any threads, one after the
-- other. A `pop` that finds nothing changes nothing.
pub data Run : Serializer → List Event → Serializer → Type 0 where
  stop : (s : Serializer) → Run s [] s
  add :
      (ref id : ℕ) (frame : ℕ → Bytes) (s s1 s2 : Serializer) (es : List Event)
      → add_command ref frame s ≡ (ok id, s1)
      → Run s1 es s2
      → Run s (Event.added ref (frame id) ∷ es) s2
  make :
      (priority ref : ℕ) (s s1 s2 : Serializer) (es : List Event)
      → new_queue priority s ≡ (ref, s1)
      → Run s1 es s2
      → Run s (Event.opened ref ∷ es) s2
  drop :
      (ref : ℕ) (ms : List Bytes) (s s2 : Serializer) (es : List Event)
      → pending ref s ≡ ms
      → Run (drop_queue ref s) es s2
      → Run s (Event.dropped ref ms ∷ es) s2
  take :
      (sorted : List (ℕ × Queue)) (ref : ℕ) (m : Bytes) (s s1 s2 : Serializer) (es : List Event)
      → Arranged sorted s.queues
      → pop sorted s ≡ (some (ref, m), s1)
      → Run s1 es s2
      → Run s (Event.popped ref m ∷ es) s2

-- A new queue is empty, and is found behind the others.
contents-append_empty :
    (r n priority : ℕ) (qs : List (ℕ × Queue))
    → contents (find ℕ_discrete r (qs ++ (n, record { priority = priority; queue = [] }) ∷ []))
      ≡ contents (find ℕ_discrete r qs)
unfolding find
contents-append_empty r n priority [] = ground arith
contents-append_empty r n priority ((j, q) ∷ qs) =
    ground (arith, contents-append_empty r n priority qs)

pending-new_queue :
    (priority r : ℕ) (s : Serializer) → pending r (new_queue priority s).1 ≡ pending r s
unfolding new_queue
pending-new_queue priority r s = contents-append_empty r s.next_ref priority s.queues

pending-drop_queue :
    (ref r : ℕ) (s : Serializer)
    → pending r (drop_queue ref s) ≡ ite (ℕ_discrete ref r) [] (pending r s)
unfolding drop_queue
pending-drop_queue ref r s =
    ap contents (find-erase ℕ_discrete ref r s.queues) ∙ elim (ℕ_discrete ref r) [
      | yes k ↦
          ap contents (if_pos (ℕ_discrete ref r) k _ _) ∙ sym (if_pos (ℕ_discrete ref r) k _ _)
      | no k ↦ ap contents (if_neg (ℕ_discrete ref r) k _ _) ∙ sym (if_neg (ℕ_discrete ref r) k _ _)
    ]

pending-add_command :
    (ref id r : ℕ) (frame : ℕ → Bytes) (s s1 : Serializer)
    → add_command ref frame s ≡ (ok id, s1)
    → pending r s1 ≡ ite (ℕ_discrete ref r) (pending r s ++ frame id ∷ []) (pending r s)
unfolding add_command
pending-add_command ref id r frame s s1 e = elim (Option-cases (find ℕ_discrete ref s.queues)) [
  | inl f ↦ absurd (ground arith)
  | inr (q, f) ↦
      let longer : Queue = record q { queue = q.queue ++ frame s.id_dispenser ∷ [] } in
      let after : Serializer = record s {
        id_dispenser = (s.id_dispenser + 1) % 2 ^ 64;
        queues = put ℕ_discrete ref longer s.queues;
      } in
      let g : ◌≡◌ {A = Result ℕ × Serializer} (ok s.id_dispenser, after) (ok id, s1) =
        rw (f, add_command) at e in
      let ki : s.id_dispenser ≡ id = ok-injective _ _ (ap (λ (z : Result ℕ × Serializer). z.0) g) in
      let ks : after ≡ s1 = ap (λ (z : Result ℕ × Serializer). z.1) g in
      let found : pending r after
          ≡ contents (ite (ℕ_discrete ref r) (some longer) (find ℕ_discrete r s.queues)) =
        ap contents (find-put ℕ_discrete ref r longer s.queues) in
      ap (pending r) (sym ks) ∙ found ∙ elim (ℕ_discrete ref r) [
        | yes k ↦
            ap contents (if_pos (ℕ_discrete ref r) k _ _)
            ∙ ap (λ (i : ℕ). q.queue ++ frame i ∷ []) ki
            ∙ ap (λ (o : Option Queue). contents o ++ frame id ∷ [])
                (sym f ∙ ap (λ (n : ℕ). find ℕ_discrete n s.queues) k)
            ∙ sym (if_pos (ℕ_discrete ref r) k _ _)
        | no k ↦
            ap contents (if_neg (ℕ_discrete ref r) k _ _) ∙ sym (if_neg (ℕ_discrete ref r) k _ _)
      ]
]

pending-pop :
    (sorted : List (ℕ × Queue)) (ref r : ℕ) (m : Bytes) (s s1 : Serializer)
    → Arranged sorted s.queues
    → pop sorted s ≡ (some (ref, m), s1)
    → pending r s ≡ ite (ℕ_discrete ref r) (m ∷ pending r s1) (pending r s1)
pending-pop sorted ref r m s s1 a e =
    let (q, ms, found, first, most, after) = pop-highest sorted s s1 ref m a e in
    elim (ℕ_discrete ref r) [
      | yes k ↦
          let before : pending r s ≡ m ∷ ms = ap contents (rw k at found) ∙ first in
          let later : pending r s1 ≡ ms = ap contents (after r ∙ if_pos (ℕ_discrete ref r) k _ _) in
          before
          ∙ ap (λ (b : List Bytes). m ∷ b) (sym later)
          ∙ sym (if_pos (ℕ_discrete ref r) k _ _)
      | no k ↦
          sym (ap contents (after r ∙ if_neg (ℕ_discrete ref r) k _ _))
          ∙ sym (if_neg (ℕ_discrete ref r) k _ _)
    ]

-- In every run of `new_queue`, `add_command`, `pop` and `drop_queue` on the serializer, what was waiting in
-- a queue and what is added to it is, in this order, what has left it and what is waiting at the end. A
-- message leaves where `pop` takes it out, or where `drop_queue` ends the queue with all that waits in it;
-- none is lost in another way, repeated or overtaken.
pub pending-Run :
    (s s' : Serializer) (es : List Event) (ref : ℕ)
    → Run s es s'
    → pending ref s ++ added_to ref es ≡ gone_from ref es ++ pending ref s'
pending-Run s s' es ref (Run.stop _) = append-nil (pending ref s)
pending-Run s s' es ref (Run.add r id frame _ s1 _ rest e more) =
    let now = pending-add_command r id ref frame s s1 e in
    let next = pending-Run s1 s' rest ref more in
    elim (ℕ_discrete r ref) [
      | yes k ↦
          ap (λ (b : List Bytes). pending ref s ++ b) (if_pos (ℕ_discrete r ref) k _ _)
          ∙ sym (append_assoc (pending ref s) (frame id ∷ []) (added_to ref rest))
          ∙ ap (λ (b : List Bytes). b ++ added_to ref rest)
              (sym (now ∙ if_pos (ℕ_discrete r ref) k _ _))
          ∙ next
      | no k ↦
          ap (λ (b : List Bytes). pending ref s ++ b) (if_neg (ℕ_discrete r ref) k _ _)
          ∙ ap (λ (b : List Bytes). b ++ added_to ref rest)
              (sym (now ∙ if_neg (ℕ_discrete r ref) k _ _))
          ∙ next
    ]
pending-Run s s' es ref (Run.make priority r _ s1 _ rest e more) =
    let same : pending ref s1 ≡ pending ref s =
      ap (λ (z : ℕ × Serializer). pending ref z.1) (sym e) ∙ pending-new_queue priority ref s in
    ap (λ (b : List Bytes). b ++ added_to ref rest) (sym same) ∙ pending-Run s1 s' rest ref more
pending-Run s s' es ref (Run.drop r ms _ _ rest e more) =
    let now = pending-drop_queue r ref s in
    let next = pending-Run (drop_queue r s) s' rest ref more in
    elim (ℕ_discrete r ref) [
      | yes k ↦
          let none_left : added_to ref rest ≡ gone_from ref rest ++ pending ref s' =
            ap (λ (b : List Bytes). b ++ added_to ref rest)
              (sym (now ∙ if_pos (ℕ_discrete r ref) k _ _))
            ∙ next in
          let waited : pending ref s ≡ ms = ap (λ (i : ℕ). pending i s) (sym k) ∙ e in
          ap (λ (b : List Bytes). b ++ added_to ref rest) waited
          ∙ ap (λ (b : List Bytes). ms ++ b) none_left
          ∙ sym (append_assoc ms (gone_from ref rest) (pending ref s'))
          ∙ ap (λ (b : List Bytes). b ++ pending ref s') (sym (if_pos (ℕ_discrete r ref) k _ _))
      | no k ↦
          ap (λ (b : List Bytes). b ++ added_to ref rest)
            (sym (now ∙ if_neg (ℕ_discrete r ref) k _ _))
          ∙ next
          ∙ ap (λ (b : List Bytes). b ++ pending ref s') (sym (if_neg (ℕ_discrete r ref) k _ _))
    ]
pending-Run s s' es ref (Run.take sorted r m _ s1 _ rest a e more) =
    let now = pending-pop sorted r ref m s s1 a e in
    let next = pending-Run s1 s' rest ref more in
    elim (ℕ_discrete r ref) [
      | yes k ↦
          ap (λ (b : List Bytes). b ++ added_to ref rest) (now ∙ if_pos (ℕ_discrete r ref) k _ _)
          ∙ ap (λ (b : List Bytes). m ∷ b) next
          ∙ ap (λ (b : List Bytes). b ++ pending ref s') (sym (if_pos (ℕ_discrete r ref) k _ _))
      | no k ↦
          ap (λ (b : List Bytes). b ++ added_to ref rest) (now ∙ if_neg (ℕ_discrete r ref) k _ _)
          ∙ next
          ∙ ap (λ (b : List Bytes). b ++ pending ref s') (sym (if_neg (ℕ_discrete r ref) k _ _))
    ]
