-- ===== src/TemporalIgnores/Tests.antt =====
-- The ignored paths at inputs: 5 ticks long.
use rewofs.Base.{◌≡◌, refl, List, [], ◌∷◌, String, true, arith}
use rewofs.Samples.{list_paths, names_equal}
use rewofs.TemporalIgnores.{check}
use rewofs.TemporalIgnores.History.{Event, run, check-refines}

abbrev a : List String
a = "a" ∷ []

abbrev b : List String
b = "b" ∷ []

abbrev calls : List (Event (List String))
calls = Event.add 1 a ∷ Event.add 3 b ∷ Event.check 4 a ∷ Event.add 7 b ∷ Event.check 8 b ∷ []

left_over : run 5 calls [] ≡ record { tp = 3; path = b } ∷ record { tp = 7; path = b } ∷ []
unfolding run names_equal
left_over = refl

check-refines_example : (check 5 9 b (run 5 calls [])).0 ≡ true
unfolding names_equal
check-refines_example = check-refines 5 calls 9 b (omega arith)
