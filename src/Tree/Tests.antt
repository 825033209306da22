-- ===== src/Tree/Tests.antt =====
-- The unit tests of the tree cache (tests/unit/test_caches.cpp), and the theorems at inputs.
use rewofs.Base.{◌≡◌, ◌↔◌, refl, List, [], ◌∷◌, ◌++◌, String, true, none, some}
use rewofs.Base.Result.{undefined, ok, raise, system_error, eexist, einval, enotempty, ◌>>=◌}
use rewofs.Messages.{no_stat}
use rewofs.Samples.{list_paths, is_root, parent_path, filename}
use rewofs.Tree.{
  Node, node, cons, nil, initial, make_node, remove_single, rename, exchange, find_node, below_root,
  get_node, attach, same_names, path_has_prefix,
}
use rewofs.Tree.View.{view}
use rewofs.Tree.Spec.{spec_rename, spec_remove_single, spec_exchange}
use rewofs.Tree.Refine.{remove_single-refines}
use rewofs.Tree.Entries.{viewed}
use rewofs.Tree.Rename.{rename-refines}
use rewofs.Tree.Exchange.{exchange-refines}

program : Unit {0}
unfolding make_node remove_single rename exchange get_node view attach same_names path_has_prefix
    is_root parent_path filename
program = tt

abbrev a : List String
a = "a" ∷ []

abbrev b : List String
b = "b" ∷ []

abbrev ax : List String
ax = "a" ∷ "x" ∷ []

-- A directory with one entry.
abbrev sample : Node
sample = node "." no_stat (cons "a" (node "a" no_stat (cons "x" (node "x" no_stat nil) nil)) nil)

twice : (make_node a initial >>= make_node a) ≡ raise (system_error eexist)
unfolding program
twice = refl

not_empty : remove_single a sample ≡ raise (system_error enotempty)
unfolding program
not_empty = refl

inside : exchange a ax sample ≡ raise (system_error einval)
unfolding program
inside = refl

-- `rename` moves the node with the name that it had.
renamed :
    (rename a b sample >>= λ t. ok (find_node ("b" ∷ []) t))
    ≡ ok (some (node "a" no_stat (cons "x" (node "x" no_stat nil) nil)))
unfolding program
renamed = refl

-- A target further below the source loses it; one right below it is not defined.
lost : rename a ("a" ∷ "x" ∷ "y" ∷ []) sample ≡ ok (node "." no_stat nil)
unfolding program
lost = refl

dangling : rename a ("a" ∷ "y" ∷ []) sample ≡ raise undefined
unfolding program
dangling = refl

-- The theorems at inputs.
rename-refines_example : viewed (rename ax b sample) ≡ spec_rename ax b (view sample)
rename-refines_example = rename-refines ax b sample

exchange-refines_example : viewed (exchange a ax sample) ≡ spec_exchange a ax (view sample)
exchange-refines_example = exchange-refines a ax sample

-- The entry "/a/x" has none of its own.
no_entries : (true ≡ true) ↔ ((x : String) → view sample (below_root ax ++ x ∷ []) ≡ none)
unfolding program
no_entries = (λ e x. refl, λ h. refl)

remove_single-refines_example :
    viewed (remove_single ax sample) ≡ spec_remove_single ax true (view sample)
remove_single-refines_example = remove_single-refines ax sample true no_entries
