-- ===== src/Cache/View.antt =====
-- The operations of `Cache` in the view of its tree: what they do to the attributes at each path, and
-- to the content.
use rewofs.Base.{
  eq_refl, ◌≡◌, refl, sym, ap, ◌∙◌, List, [], ◌∷◌, String, Option, none, some, arith, Option-cases,
  Bool-cases, inl, inr,
}
use rewofs.Base.Paths.{Paths}
use rewofs.Base.Result.{ok}
use rewofs.Messages.{Stat, no_stat}
use rewofs.Content.{delete_file}
use rewofs.Tree.{Node, node, st, set_st, find_node, update_node, below_root, children, drop_child}
use rewofs.Tree
use rewofs.Tree.View.{
  view, strip, below, view-nil, view-cons, view-strip, view-update_node, view-drop_child,
}
use rewofs.Tree.Spec.{View, fresh, nothing, spec_make_node}
use rewofs.Tree.Entries.{viewed, found_of_view, below_root_split}
use rewofs.Tree.Refine.{make_node-refines}
use rewofs.Cache.{Cache, get_node, make_node, remove_single, assign_st, set_node_st}

-- The attributes of one path are replaced, where `strip` leaves nothing of it.
abbrev pub assigned : Option (List String) → Stat → Option Stat → Option Stat
assigned none s old = old
assigned (some []) s old = some s
assigned (some (x ∷ xs)) s old = old

-- A node with nothing below it.
abbrev pub leaf : Stat → View
leaf s [] = some s
leaf s (x ∷ xs) = none

view-set_st_self : (s : Stat) (n : Node) → view (set_st s n) [] ≡ some s
view-set_st_self s (node k t cs) = view-nil (node k s cs)

view-set_st_below :
    (s : Stat) (n : Node) (x : String) (xs : List String)
    → view (set_st s n) (x ∷ xs) ≡ view n (x ∷ xs)
view-set_st_below s (node k t cs) x xs =
    view-cons x xs (node k s cs) ∙ sym (view-cons x xs (node k t cs))

view-set_st :
    (p q : List String) (s : Stat) (root n : Node)
    → find_node p root ≡ some n
    → view (update_node p (set_st s) root) q ≡ assigned (strip p q) s (view root q)
view-set_st p q s root n e = view-update_node p q (set_st s) root n e ∙ rest (strip p q) refl
  where
    rest :
        (o : Option (List String))
        → strip p q ≡ o
        → below o (view (set_st s n)) (view root q) ≡ assigned o s (view root q)
    rest none h = refl
    rest (some []) h = view-set_st_self s n
    rest (some (x ∷ xs)) h = view-set_st_below s n x xs ∙ sym (view-strip p q (x ∷ xs) root n e h)

leaf_of_fresh :
    (o : Option (List String)) (s : Stat) (old : Option Stat)
    → assigned o s (below o fresh old) ≡ below o (leaf s) old
leaf_of_fresh none s old = refl
leaf_of_fresh (some []) s old = refl
leaf_of_fresh (some (x ∷ xs)) s old = refl

module _ {P : Type 0} ⦃paths : Paths P⦄ where
  open paths use {is_root, parent_path, filename}

  spec_make_node_ok :
      (path : P) (v w : View)
      → spec_make_node path v ≡ ok w
      → (q : List String) → w q ≡ below (strip (below_root path) q) fresh (v q)
  spec_make_node_ok path v w e q = ground arith

  pub view-set_node_st :
      (path : P) (s : Stat) (c c' : Cache P)
      → set_node_st path s c ≡ ok c'
      → (c'.content ≡ c.content)
        × ((q : List String)
            → view c'.tree q ≡ assigned (strip (below_root path) q) s (view c.tree q))
  unfolding set_node_st get_node assign_st Tree.get_node
  view-set_node_st path s c c' e = elim (Option-cases (find_node (below_root path) c.tree)) [
    | inl h ↦ absurd (ground arith)
    | inr (n, h) ↦
        let k : c' ≡ assign_st path s c = ground arith in
        rw k (refl, λ q. view-set_st (below_root path) q s c.tree n h)
  ]

  -- `make_node(path).st = st`
  pub view-make_node_st :
      (path : P) (s : Stat) (c c' : Cache P)
      → make_node path c ≡ ok c'
      → (c'.content ≡ c.content)
        × ((q : List String)
            → view (assign_st path s c').tree q
              ≡ below (strip (below_root path) q) (leaf s) (view c.tree q))
  unfolding make_node assign_st
  view-make_node_st path s c c' e =
      let k : Tree.make_node path c.tree ≡ ok c'.tree = ground arith in
      let v =
        spec_make_node_ok path (view c.tree) (view c'.tree)
          (sym (make_node-refines path c.tree) ∙ ap viewed k) in
      let (n, h) =
        found_of_view (below_root path) c'.tree no_stat
          (v (below_root path) ∙ rw (strip_self (below_root path))) in
      (
        ground arith,
        λ q.
            view-set_st (below_root path) q s c'.tree n h
            ∙ rw (v q) (leaf_of_fresh (strip (below_root path) q) s (view c.tree q)),
      )
    where
      strip_self : (p : List String) → strip p p ≡ some []
      strip_self [] = refl
      strip_self (x ∷ xs) = rw (eq_refl x) (strip_self xs)

  tree-remove_single :
      (path : P) (root root' : Node)
      → Tree.remove_single path root ≡ ok root'
      → (q : List String) → view root' q ≡ below (strip (below_root path) q) nothing (view root q)
  unfolding Tree.remove_single Tree.get_node
  tree-remove_single path root root' e q = elim (Bool-cases (is_root path)) [
    | inl h ↦ absurd (ground arith)
    | inr h ↦ elim (Option-cases (find_node (below_root (parent_path path)) root)) [
      | inl f ↦ absurd (ground arith)
      | inr (n, f) ↦
          let k : root'
              ≡ update_node (below_root (parent_path path)) (drop_child (filename path)) root =
            ground arith in
          rw (k, below_root_split path h)
            (view-drop_child (below_root (parent_path path)) q (filename path) root n f)
    ]
  ]

  pub view-remove_single :
      (path : P) (c c' : Cache P)
      → remove_single path c ≡ ok c'
      → (c'.content ≡ delete_file path c.content)
        × ((q : List String)
            → view c'.tree q ≡ below (strip (below_root path) q) nothing (view c.tree q))
  unfolding remove_single
  view-remove_single path c c' e =
      let k : Tree.remove_single path c.tree ≡ ok c'.tree = ground arith in
      (ground arith, tree-remove_single path c.tree c'.tree k)
