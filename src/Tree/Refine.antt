-- ===== src/Tree/Refine.antt =====
-- The operations of `Tree` refine their specification, on every branch.
use rewofs.Base.{
  ◌≡◌, ◌∙◌, ap, fun_ext, Bool, true, List, [], ◌∷◌, ◌++◌, String, none, Bool-cases, Option-cases,
  inl, inr, ◌↔◌,
}
use rewofs.Base.Paths.{Paths}
use rewofs.Base.Result.{ok}
use rewofs.Tree.{
  Node, children, lookup, find_node, new_node, below_root, get_node, make_node, remove_single,
}
use rewofs.Tree.View.{view, strip, below, view-add_child, view-drop_child}
use rewofs.Tree.Spec.{View, spec_make_node, spec_remove_single}
use rewofs.Tree.Entries.{
  viewed, view_found, view_missing, view-entry_some, view-entry_none, view-new_node,
  find_node-append, same_empty, below_root_split,
}

module _ {P : Type 0} ⦃paths : Paths P⦄ where
  open paths use {is_root, elements, parent_path, filename}

  -- `make_node` returns and throws as specified, whatever the tree: EEXIST on the root or an entry
  -- that is there, ENOENT without a parent, and else a tree with the one new entry.
  pub make_node-refines :
      (path : P) (root : Node) → viewed (make_node path root) ≡ spec_make_node path (view root)
  unfolding make_node get_node
  make_node-refines path root = elim (Bool-cases (is_root path)) [
    | inl h ↦ rw h
    | inr h ↦
        rw (h, below_root_split path h)
          (elim (Option-cases (find_node p root)) [
            | inl e ↦ rw (e, view_missing p root e)
            | inr (n, e) ↦
                rw (e, view_found p root n e)
                  (elim (Option-cases (lookup x (children n))) [
                    | inl f ↦
                        rw (f, view-entry_none p x root n e f)
                          (ap ok (
                            fun_ext λ q.
                              view-add_child p q x (new_node x) root n e f
                              ∙ ap (λ (g : View). below (strip (p ++ x ∷ []) q) g (view root q))
                                  (fun_ext (view-new_node x))))
                    | inr (c, f) ↦ rw (f, view-entry_some p x root n c e f)
                  ])
          ])
  ]
    where
      p : List String
      p = below_root (parent_path path)

      x : String
      x = filename path

  -- `remove_single` returns and throws as specified, where `empty` tells whether the view has no
  -- entry right below the path: EACCES on the root, ENOENT on what is not there, ENOTEMPTY where
  -- it is not empty, and else a tree without that one entry.
  pub remove_single-refines :
      (path : P) (root : Node) (empty : Bool)
      → (empty ≡ true) ↔ ((x : String) → view root (below_root path ++ x ∷ []) ≡ none)
      → viewed (remove_single path root) ≡ spec_remove_single path empty (view root)
  unfolding remove_single get_node
  remove_single-refines path root empty E = elim (Bool-cases (is_root path)) [
    | inl h ↦ rw h
    | inr h ↦
        rw (h, below_root_split path h)
          (elim (Option-cases (find_node p root)) [
            | inl e ↦ rw (e, view_missing p root e)
            | inr (n, e) ↦
                rw (e, view_found p root n e)
                  (elim (Option-cases (lookup x (children n))) [
                    | inl f ↦ rw (f, view-entry_none p x root n e f)
                    | inr (c, f) ↦
                        rw
                          (
                            f,
                            view-entry_some p x root n c e f,
                            same_empty (p ++ x ∷ []) root c empty
                                (find_node-append p x root n c e f)
                                (rw (below_root_split path h) at E),
                          )
                          (elim (Bool-cases empty) [
                            | inl g ↦ rw g (ap ok (fun_ext λ q. view-drop_child p q x root n e))
                            | inr g ↦ rw g
                          ])
                  ])
          ])
  ]
    where
      p : List String
      p = below_root (parent_path path)

      x : String
      x = filename path
