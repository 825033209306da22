-- ===== src/Transport/Replies.antt =====
-- What `Deserializer::wait_for_result` returns.
use rewofs.Base.{
  ℕ, ◌≡◌, refl, sym, ap, ◌∙◌, Bool, true, false, ◌==◌, List, [], ◌∷◌, ◌++◌, or_else-none,
  or_else_assoc, find_if, if◌then◌else◌, Option, none, some, ite, if_pos, if_neg, arith, ℕ_discrete,
  Option-cases, Bool-cases, inl, inr, or_else,
}
use mathlib.Core.Option.{none-ne-some}
use rewofs.Base.Assoc.{find, find-emplace}
use rewofs.Transport.{
  Bytes, Frames, Deserializer, process_frame, process_frames, matches, look, wait_for_result,
}

-- All that arrives before the time is over.
abbrev pub concat : List (List Bytes) → List Bytes
concat [] = []
concat (raws ∷ rest) = raws ++ concat rest

same_test :
    (a b : ℕ) (o : Option Bytes) → ite (ℕ_discrete a b) o none ≡ (if a == b then o else none)
same_test a b o = elim (ℕ_discrete a b) [
  | yes k ↦ let t : (a == b) ≡ true = ground arith in if_pos (ℕ_discrete a b) k _ _ ∙ rw t refl
  | no k ↦ let t : (a == b) ≡ false = ground arith in if_neg (ℕ_discrete a b) k _ _ ∙ rw t refl
]

module _ (frames : Frames) (mid message_type : ℕ) where
  abbrev pub is_for : Bytes → Bool
  is_for raw = elim (frames.parse raw) [ none ↦ false | some header ↦ header.0 == mid ]

  -- A frame of another type than the one waited for is no answer.
  abbrev pub accepted : Option Bytes → Option Bytes
  accepted none = none
  accepted (some raw) = if matches frames mid message_type raw then some raw else none

  first_of :
      (raw : Bytes) (raws : List Bytes)
      → or_else (if is_for raw then some raw else none) (find_if is_for raws)
        ≡ find_if is_for (raw ∷ raws)
  first_of raw raws = elim (Bool-cases (is_for raw)) [ inl h ↦ rw h | inr h ↦ rw h ]

  find_if-append :
      (xs ys : List Bytes)
      → find_if is_for (xs ++ ys) ≡ or_else (find_if is_for xs) (find_if is_for ys)
  find_if-append [] ys = refl
  find_if-append (x ∷ xs) ys = elim (Bool-cases (is_for x)) [
    | inl h ↦ rw h
    | inr h ↦ rw h (find_if-append xs ys)
  ]

  find-process_frame :
      (raw : Bytes) (items : Deserializer)
      → find ℕ_discrete mid (process_frame frames raw items)
        ≡ or_else (find ℕ_discrete mid items) (if is_for raw then some raw else none)
  unfolding process_frame
  find-process_frame raw items = elim (Option-cases (frames.parse raw)) [
    | inl e ↦ rw (e, process_frame, is_for) (sym (or_else-none (find ℕ_discrete mid items)))
    | inr (header, e) ↦
        rw (e, process_frame, is_for)
          (find-emplace ℕ_discrete header.0 mid raw items
            ∙ ap (or_else (find ℕ_discrete mid items)) (same_test header.0 mid (some raw)))
  ]

  find-process_frames :
      (raws : List Bytes) (items : Deserializer)
      → find ℕ_discrete mid (process_frames frames raws items)
        ≡ or_else (find ℕ_discrete mid items) (find_if is_for raws)
  unfolding process_frames
  find-process_frames [] items = sym (or_else-none (find ℕ_discrete mid items))
  find-process_frames (raw ∷ raws) items =
      find-process_frames raws (process_frame frames raw items)
      ∙ rw (find-process_frame raw items) (
          or_else_assoc (find ℕ_discrete mid items) (if is_for raw then some raw else none)
            (find_if is_for raws)
          ∙ ap (or_else (find ℕ_discrete mid items)) (first_of raw raws))

  look_lem :
      (items : Deserializer)
      → (look frames mid message_type items).0 ≡ accepted (find ℕ_discrete mid items)
  unfolding look
  look_lem items = ground arith

  look_nothing :
      (items : Deserializer)
      → (look frames mid message_type items).0 ≡ none
      → look frames mid message_type items ≡ (none, items)
  unfolding look
  look_nothing items e = elim (Option-cases (find ℕ_discrete mid items)) [
    | inl h ↦ rw (h, look) refl
    | inr (r, h) ↦ elim (Bool-cases (matches frames mid message_type r)) [
      | inl k ↦ absurd (none-ne-some r (sym e ∙ (look_lem items ∙ rw (h, k) refl)))
      | inr k ↦ rw (h, look, k) refl
    ]
  ]

  wait_next :
      (arrived : List Bytes) (later : List (List Bytes)) (items : Deserializer)
      → (look frames mid message_type items).0 ≡ none
      → wait_for_result frames mid message_type (arrived ∷ later) items
        ≡ wait_for_result frames mid message_type later (process_frames frames arrived items)
  unfolding wait_for_result
  wait_next arrived later items e =
      let k : (look frames mid message_type items).1 ≡ items =
        ap (λ (r : Option Bytes × Deserializer). r.1) (look_nothing items e) in
      rw (e, wait_for_result, k) refl

  wait_over :
      (arrived : List Bytes) (later : List (List Bytes)) (items : Deserializer) (raw : Bytes)
      → (look frames mid message_type items).0 ≡ some raw
      → (wait_for_result frames mid message_type (arrived ∷ later) items).0 ≡ some raw
  unfolding wait_for_result
  wait_over arrived later items raw e = rw (e, wait_for_result) e

  -- The wait returns the first frame with its id, if it is of the right type: one that was there, or the
  -- first to arrive before the time is over; and else nothing.
  pub wait_for_result_lem :
      (arrivals : List (List Bytes)) (items : Deserializer)
      → (wait_for_result frames mid message_type arrivals items).0
        ≡ accepted (or_else (find ℕ_discrete mid items) (find_if is_for (concat arrivals)))
  unfolding wait_for_result look
  wait_for_result_lem [] items =
      look_lem items ∙ ap accepted (sym (or_else-none (find ℕ_discrete mid items)))
  wait_for_result_lem (arrived ∷ later) items =
      let known : Option Bytes = find ℕ_discrete mid items in
      let all : Option Bytes = or_else known (find_if is_for (arrived ++ concat later)) in
      elim (Option-cases (look frames mid message_type items).0) [
        | inr (raw, f) ↦ wait_over arrived later items raw f ∙ found raw f
        | inl f ↦
            ap (λ (r : Option Bytes × Deserializer). r.0) (wait_next arrived later items f)
            ∙ wait_for_result_lem later (process_frames frames arrived items)
            ∙ rw
                (
                  find-process_frames arrived items,
                  or_else_assoc known (find_if is_for arrived) (find_if is_for (concat later)),
                  ← find_if-append arrived (concat later),
                )
                refl
      ]
    where
      found :
          (raw : Bytes)
          → (look frames mid message_type items).0 ≡ some raw
          → some raw
            ≡ accepted
                (or_else (find ℕ_discrete mid items) (find_if is_for (arrived ++ concat later)))
      found raw f = elim (Option-cases (find ℕ_discrete mid items)) [
        | inl h ↦ absurd (none-ne-some raw (rw h at (sym (look_lem items) ∙ f)))
        | inr (r, h) ↦ rw h (sym (rw h at (sym (look_lem items) ∙ f)))
      ]
