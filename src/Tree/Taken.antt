-- ===== src/Tree/Taken.antt =====
-- `Tree::rename` onto a path that is there.
use rewofs.Base.{◌≡◌, refl, ap, ◌∙◌, false, String, some, List, [], ◌∷◌, ◌++◌}
use mathlib.Core.Option.{some-injective}
use rewofs.Base.Paths.{Paths}
use rewofs.Base.Result.{raise, system_error, eexist}
use rewofs.Messages.{Stat}
use rewofs.Tree.{Node, children, lookup, find_node, below_root, get_node, rename}
use rewofs.Tree.View.{view, found-cons}
use rewofs.Tree.Entries.{found_of_view, below_root_split}

found_parent :
    (p : List String) (x : String) (root n : Node)
    → find_node (p ++ x ∷ []) root ≡ some n
    → (m : Node) × (find_node p root ≡ some m) × (lookup x (children m) ≡ some n)
unfolding find_node
found_parent [] x root n e =
    let (c, ec, en) = found-cons x [] root n e in (root, refl, ec ∙ ap some (some-injective c n en))
found_parent (y ∷ p) x root n e =
    let (c, ec, en) = found-cons y (p ++ x ∷ []) root n e in
    let (m, em, ex) = found_parent p x c n en in (m, rw (ec, find_node) em, ex)

module _ {P : Type 0} ⦃paths : Paths P⦄ where
  open paths use {is_root, parent_path, filename}

  entry_found :
      (path : P) (root : Node) (s : Stat)
      → is_root path ≡ false
      → view root (below_root path) ≡ some s
      → (m : Node) × (n : Node) × (find_node (below_root (parent_path path)) root ≡ some m)
        × (lookup (filename path) (children m) ≡ some n)
  entry_found path root s h e =
      let (n, f) = found_of_view (below_root path) root s e in
      let (m, em, ex) =
        found_parent (below_root (parent_path path)) (filename path) root n
          (rw (below_root_split path h) at f) in
      (m, n, em, ex)

  pub rename_taken :
      (from to : P) (root : Node) (s t : Stat)
      → is_root from ≡ false
      → is_root to ≡ false
      → view root (below_root from) ≡ some s
      → view root (below_root to) ≡ some t
      → rename from to root ≡ raise (system_error eexist)
  unfolding rename get_node
  rename_taken from to root s t h1 h2 e1 e2 =
      let (m1, n1, f1, g1) = entry_found from root s h1 e1 in
      let (m2, n2, f2, g2) = entry_found to root t h2 e2 in rw (h1, h2, f1, g1, f2, g2)
