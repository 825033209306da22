-- ===== src/Watcher/Round.antt =====
-- When a round of the watcher sends a message.
use rewofs.Base.{ℕ, ◌≡◌, refl, sym, ◌⊎◌, true, List, [], ◌∷◌, ◌++◌, none, some}
use rewofs.Base.Paths.{Paths}
use rewofs.Base.Result.{Result, ok, raise}
use mathlib.Core.Option.{none-ne-some}
use rewofs.TemporalIgnores.{Items, check}
use rewofs.Watcher.{
  Poll, Watch, Surroundings, next_event, is_missing, again, react, watch_round, round,
}

-- The lists that were read without an error.
abbrev pub reads : {Print : Type 0} → List (Result Print) → List Print
reads [] = []
reads (ok new ∷ rest) = new ∷ reads rest
reads (raise e ∷ rest) = reads rest

-- Two neighbours are equal.
abbrev pub Repeats : {A : Type 0} → List A → Type 0
Repeats [] = ⊥
Repeats (x ∷ []) = ⊥
Repeats (x ∷ y ∷ xs) = (x ≡ y) ⊎ Repeats (y ∷ xs)

-- No error but that of an entry that has gone away.
abbrev OnlyMissing : {Print : Type 0} → List (Result Print) → Type 0
OnlyMissing [] = Unit
OnlyMissing (ok new ∷ rest) = OnlyMissing rest
OnlyMissing (raise e ∷ rest) = (is_missing e ≡ true) × OnlyMissing rest

next_event-append :
    {P : Type 0} (front rest : List (Poll P)) (path : P)
    → next_event front ≡ none
    → next_event (front ++ Poll.changed path ∷ rest) ≡ some path
unfolding next_event
next_event-append [] rest path f = refl
next_event-append (Poll.timeout ∷ front) rest path f = next_event-append front rest path f
next_event-append (Poll.unwatched ∷ front) rest path f = next_event-append front rest path f
next_event-append (Poll.changed q ∷ front) rest path f = absurd (none-ne-some q (sym f))

module _ {P Print : Type 0} ⦃paths : Paths P⦄ (same : Discrete Print) (empty : Print)
    (ignore_duration : ℕ) where
  -- What is behind the first event of a round is not looked at: where its path is ignored, the round
  -- sends no message and the next one begins, whatever else has changed.
  pub round-ignored_first :
      (around : Surroundings P Print) (front rest : List (Poll P)) (path : P) (items : Items P)
      → next_event front ≡ none
      → around.watch ≡ Watch.watching (front ++ Poll.changed path ∷ rest)
      → (check ignore_duration around.now path items).0 ≡ true
      → round same empty ignore_duration around items
        ≡ (again, (check ignore_duration around.now path items).1)
  unfolding watch_round react
  round-ignored_first around front rest path items f w c =
      rw (w, watch_round, next_event-append front rest path f, react, c)
