-- ===== src/Watcher/Tests.antt =====
-- Rounds of the watcher at inputs. Lists of the tree are numbers here, 0 the empty one.
use rewofs.Base.{ℕ, ◌≡◌, refl, List, [], ◌∷◌, String, false, ℕ_discrete}
use rewofs.Base.Result.{Result, ok, raise, system_error, enoent}
use rewofs.Samples.{list_paths, names_equal}
use rewofs.TemporalIgnores.{check}
use rewofs.TemporalIgnores.History.{Event, run}
use rewofs.Watcher.{Poll, Watch, Surroundings, next_event, again, round}
use rewofs.Watcher.Round.{round-ignored_first}

abbrev a : List String
a = "a" ∷ []

abbrev b : List String
b = "b" ∷ []

abbrev prints : List (Result ℕ)
prints = ok 3 ∷ raise (system_error enoent) ∷ ok 4 ∷ ok 4 ∷ []

abbrev own : List (Event (List String))
own = Event.add 10 a ∷ []

abbrev polls : List (Poll (List String))
polls = Poll.timeout ∷ Poll.changed a ∷ Poll.changed b ∷ []

abbrev around : ℕ → Surroundings (List String) ℕ
around now = record { watch = Watch.watching polls; now = now; prints = prints; quits = false }

round-ignored_first_example :
    round ℕ_discrete 0 5 (around 12) (run 5 own []) ≡ (again, (check 5 12 a (run 5 own [])).1)
unfolding names_equal check run next_event
round-ignored_first_example =
    round-ignored_first ℕ_discrete 0 5 (around 12) (Poll.timeout ∷ []) (Poll.changed b ∷ []) a
      (run 5 own []) refl refl refl
