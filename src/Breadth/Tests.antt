-- ===== src/Breadth/Tests.antt =====
-- The walk at a directory with a directory of one file, and a file.
use rewofs.Base.{ℕ, ◌≡◌, refl, true, false, Bool, List, [], ◌∷◌, map, some, String, length, arith}
use rewofs.Base.Result.{ok}
use rewofs.Samples.{list_paths, names_equal}
use rewofs.Breadth.{Directories, breadth_first_tree, walk, same_item, child_item}
use rewofs.Breadth.Entries.{Entry, leaf, directory, nil, cons, counted, all_children}
use rewofs.Breadth.Levels.{Holds, breadth_first_tree_lem}

abbrev a : Entry (List String)
a = directory ("a" ∷ []) (cons (leaf ("a" ∷ "b" ∷ [])) nil)

abbrev top : Entry (List String)
top = directory [] (cons a (cons (leaf ("c" ∷ [])) nil))

abbrev listed : List String → List (List String × Bool)
listed [] = ("a" ∷ [], true) ∷ ("c" ∷ [], false) ∷ []
listed (x ∷ p) = ("a" ∷ "b" ∷ [], false) ∷ []

abbrev directories : Directories (List String) ℕ
directories = record { symlink_status = λ p k. (ok true, k); directory = λ p k. (ok (listed p), k) }

top-Holds : Holds directories top
top-Holds = (λ k. refl, ((λ k. refl, (tt, tt)), (tt, tt)))

visited :
    breadth_first_tree directories 4 [] 0
    ≡ (some (ok (map counted (top ∷ a ∷ leaf ("c" ∷ []) ∷ leaf ("a" ∷ "b" ∷ []) ∷ []))), 0)
unfolding breadth_first_tree walk
visited = refl

different : same_item (counted a) (child_item ("a" ∷ [], true)) ≡ false
unfolding names_equal
different = refl

breadth_first_tree_lem_example :
    (all : List (Entry (List String))) × (breadth_first_tree directories 4 [] 0
      ≡ (some (ok (map counted all)), 0))
    × (all ≡ top ∷ all_children all)
    × (length all ≡ 4)
breadth_first_tree_lem_example =
    breadth_first_tree_lem directories top 4 0 (λ k. refl) top-Holds (omega arith)
