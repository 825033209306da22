-- ===== src/Tree/Rename.antt =====
-- `Tree::rename` refines its specification, on every branch.
use rewofs.Base.{
  ◌≡◌, refl, sym, ◌∙◌, ap, fun_ext, ◌||◌, Bool, false, if◌then◌else◌, List, [], ◌∷◌, ◌++◌, String,
  Option, none, some, Bool-cases, Option-cases, inl, inr, arith,
}
use mathlib.Core.Option.{none-ne-some, some-injective}
use rewofs.Base.Paths.{Paths}
use rewofs.Base.Result.{ok, raise, undefined}
use rewofs.Tree.{
  Node, st, children, lookup, find_node, update_node, add_child, drop_child, below_root, get_node,
  rename, attach, same_names, is_end,
}
use rewofs.Tree.View.{view, strip, below, view-add_child, view-drop_child}
use rewofs.Tree.Spec.{View, nothing, moved_to, spec_rename}
use rewofs.Tree.Entries.{
  viewed, view-append, view_found, view_missing, view-entry_some, view-entry_none, find_node-append,
  below_root_split, found_of_view, missing_of_view, lookup_of_view,
}

module _ (p : List String) (x : String) (root n c : Node) (e : find_node p root ≡ some n)
    (f : lookup x (children n) ≡ some c) where
  -- The tree with the entry `x` of the directory at `p` erased.
  abbrev cut : Node
  cut = update_node p (drop_child x) root

  view-cut : (q : List String) → view cut q ≡ below (strip (p ++ x ∷ []) q) nothing (view root q)
  view-cut q = view-drop_child p q x root n e

  -- What was below the entry is not there, all else is.
  cut_missing : (d rest : List String) → strip (p ++ x ∷ []) d ≡ some rest → find_node d cut ≡ none
  cut_missing d rest h = missing_of_view d cut (view-cut d ∙ rw h)

  cut_found :
      (d : List String) (m : Node)
      → strip (p ++ x ∷ []) d ≡ none
      → find_node d root ≡ some m
      → (m' : Node) × (find_node d cut ≡ some m')
  cut_found d m h g = found_of_view d cut (st m) (view-cut d ∙ rw h (view_found d root m g))

  -- The entry put back as `y` at `d`.
  view-attached :
      (d q : List String) (y : String) (m' : Node)
      → find_node d cut ≡ some m'
      → view root (d ++ y ∷ []) ≡ none
      → view (update_node d (add_child y c) cut) q
        ≡ below
            (strip (d ++ y ∷ []) q)
            (λ rest. view root ((p ++ x ∷ []) ++ rest))
            (below (strip (p ++ x ∷ []) q) nothing (view root q))
  view-attached d q y m' h free =
      view-add_child d q y c cut m' h (lookup_of_view d y cut m' h free')
      ∙ rw (view-cut q) (
          ap
            (λ (g : View).
              below (strip (d ++ y ∷ []) q) g (below (strip (p ++ x ∷ []) q) nothing (view root q)))
            (fun_ext λ rest.
              sym (view-append (p ++ x ∷ []) rest root c (find_node-append p x root n c e f))))
    where
      below-none : (o : Option (List String)) → below o nothing none ≡ none
      below-none none = refl
      below-none (some rest) = refl

      free' : view cut (d ++ y ∷ []) ≡ none
      free' = view-cut (d ++ y ∷ []) ∙ rw free (below-none (strip (p ++ x ∷ []) (d ++ y ∷ [])))

or-false : (a b : Bool) → (a || b) ≡ false → (a ≡ false) × (b ≡ false)
or-false a b h = ground arith

-- Two paths are the same where nothing is left of the one behind the other.
same_names-strip : (a b rest : List String) → strip a b ≡ some rest → same_names a b ≡ is_end rest
unfolding same_names
same_names-strip [] [] rest h = ap is_end (some-injective [] rest h)
same_names-strip [] (y ∷ ys) rest h = ap is_end (some-injective (y ∷ ys) rest h)
same_names-strip (x ∷ xs) [] rest h = absurd (none-ne-some rest h)
same_names-strip (x ∷ xs) (y ∷ ys) rest h = ground (arith, same_names-strip xs ys rest)

module _ (p : List String) (x : String) (root n c : Node) (e : find_node p root ≡ some n)
    (f : lookup x (children n) ≡ some c) where
  lost :
      (d rest to : List String)
      → strip (p ++ x ∷ []) d ≡ some rest
      → viewed (if same_names (p ++ x ∷ []) d then raise undefined else ok (cut p x root n c e f))
        ≡ moved_to (strip (p ++ x ∷ []) d) (p ++ x ∷ []) to (view root)
  lost d [] to u = rw (u, same_names-strip (p ++ x ∷ []) d [] u) refl
  lost d (y ∷ ys) to u =
      rw (u, same_names-strip (p ++ x ∷ []) d (y ∷ ys) u)
        (ap ok (fun_ext (view-cut p x root n c e f)))

module _ {P : Type 0} ⦃paths : Paths P⦄ where
  open paths use {is_root, elements, parent_path, filename}

  -- `rename` returns and throws as specified: EEXIST on the root and on a target that is there,
  -- ENOENT on a missing source or parent; a target right below the source is undefined; with a target
  -- further below the source it returns, and the source is gone with all that is below it; and else the
  -- whole subtree is found below its new path, not below its old. In both cases nothing else has changed.
  pub rename-refines :
      (from to : P) (root : Node) → viewed (rename from to root) ≡ spec_rename from to (view root)
  unfolding rename get_node attach
  rename-refines from to root = elim (Bool-cases (is_root from || is_root to)) [
    | inl h ↦ rw h
    | inr h ↦
        let (h1, h2) = or-false (is_root from) (is_root to) h in
        rw (h, below_root_split from h1, below_root_split to h2)
          (elim (Option-cases (find_node p root)) [
            | inl e ↦ rw (e, view_missing p root e)
            | inr (n, e) ↦
                rw (e, view_found p root n e)
                  (elim (Option-cases (lookup x (children n))) [
                    | inl f ↦ rw (f, view-entry_none p x root n e f)
                    | inr (c, f) ↦
                        rw (f, view-entry_some p x root n c e f)
                          (elim (Option-cases (find_node d root)) [
                            | inl g ↦ rw (g, view_missing d root g)
                            | inr (m, g) ↦
                                rw (g, view_found d root m g)
                                  (elim (Option-cases (lookup y (children m))) [
                                    | inr (w, k) ↦ rw (k, view-entry_some d y root m w g k)
                                    | inl k ↦
                                        rw (k, view-entry_none d y root m g k)
                                          (elim (Option-cases (strip (p ++ x ∷ []) d)) [
                                            | inr (rest, u) ↦
                                                rw (cut_missing p x root n c e f d rest u, attach)
                                                  (lost p x root n c e f d rest (d ++ y ∷ []) u)
                                            | inl u ↦
                                                let (m', v) = cut_found p x root n c e f d m u g in
                                                rw (u, v, attach)
                                                  (ap ok (
                                                    fun_ext λ q.
                                                      view-attached p x root n c e f d q y m' v
                                                        (view-entry_none d y root m g k)))
                                          ])
                                  ])
                          ])
                  ])
          ])
  ]
    where
      p : List String
      p = below_root (parent_path from)

      x : String
      x = filename from

      d : List String
      d = below_root (parent_path to)

      y : String
      y = filename to
