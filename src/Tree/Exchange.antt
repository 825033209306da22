-- ===== src/Tree/Exchange.antt =====
-- `Tree::exchange` refines its specification, on every branch.
use mathlib.Core.Option.{none-ne-some}
use rewofs.Base.{
  ◌≡◌, refl, sym, ◌∙◌, ap, fun_ext, List, [], ◌∷◌, ◌++◌, String, Option, none, some, eq_iff,
  Option-cases, inl, inr, arith,
}
use rewofs.Base.Paths.{Paths}
use rewofs.Base.Result.{ok}
use rewofs.Messages.{Stat}
use rewofs.Tree.{
  Node, node, st, children, find_node, update_node, set_body, below_root, is_some, get_node,
  exchange, path_has_prefix, is_end, mismatch,
}
use rewofs.Tree.View.{view, strip, below, view-update_node}
use rewofs.Tree.Spec.{View, spec_exchange}
use rewofs.Tree.Entries.{viewed, view-append, view_found, view_missing, found_of_view}

-- `std::mismatch` reaches the end of the second path exactly when that is a prefix of the first.
mismatch-strip : (xs ys : List String) → is_end (mismatch xs ys) ≡ is_some (strip ys xs)
unfolding mismatch
mismatch-strip [] [] = refl
mismatch-strip [] (y ∷ ys) = refl
mismatch-strip (x ∷ xs) [] = refl
mismatch-strip (x ∷ xs) (y ∷ ys) = ground (arith, eq_iff x y, eq_iff y x, mismatch-strip xs ys)

-- Of two paths that are no prefixes of one another, nothing lies below both.
strip-apart :
    (a b q r : List String)
    → strip a b ≡ none
    → strip b a ≡ none
    → strip a q ≡ some r
    → strip b q ≡ none
strip-apart [] b q r h k e = absurd (none-ne-some b (sym h))
strip-apart (x ∷ a) [] q r h k e = absurd (none-ne-some (x ∷ a) (sym k))
strip-apart (x ∷ a) (y ∷ b) [] r h k e = refl
strip-apart (x ∷ a) (y ∷ b) (z ∷ q) r h k e =
    ground (arith, eq_iff x y, eq_iff y x, eq_iff x z, eq_iff y z, strip-apart a b q r)

below_comm :
    (a b q : List String) (f g : View) (other : Option Stat)
    → strip a b ≡ none
    → strip b a ≡ none
    → below (strip b q) f (below (strip a q) g other)
      ≡ below (strip a q) g (below (strip b q) f other)
below_comm a b q f g other h k = elim (Option-cases (strip a q)) [
  | inl e ↦ rw e
  | inr (r, e) ↦ rw (e, strip-apart a b q r h k e)
]

-- The exchanged node has the attributes and the children of the other.
view-set_body : (m n : Node) (q : List String) → view (set_body (st m) (children m) n) q ≡ view m q
unfolding view find_node
view-set_body (node k s cs) (node l t ds) [] = refl
view-set_body (node k s cs) (node l t ds) (x ∷ q) = refl

module _ (a b : List String) (root n1 n2 : Node) (e1 : find_node a root ≡ some n1)
    (e2 : find_node b root ≡ some n2) (h : strip a b ≡ none) (k : strip b a ≡ none) where
  abbrev half : Node
  half = update_node a (set_body (st n2) (children n2)) root

  view-half : (q : List String) → view half q ≡ below (strip a q) (view n2) (view root q)
  view-half q =
      view-update_node a q (set_body (st n2) (children n2)) root n1 e1
      ∙ ap (λ (g : View). below (strip a q) g (view root q)) (fun_ext (view-set_body n2 n1))

  view-swapped :
      (q : List String)
      → view (update_node b (set_body (st n1) (children n1)) half) q
        ≡ below
            (strip a q)
            (λ rest. view root (b ++ rest))
            (below (strip b q) (λ rest. view root (a ++ rest)) (view root q))
  view-swapped q =
      let (m, found) =
        found_of_view b half (st n2) (view-half b ∙ rw h (view_found b root n2 e2)) in
      view-update_node b q (set_body (st n1) (children n1)) half m found
      ∙ ap (λ (g : View). below (strip b q) g (view half q)) (fun_ext (view-set_body n1 m))
      ∙ ap (below (strip b q) (view n1)) (view-half q)
      ∙ below_comm a b q (view n1) (view n2) (view root q) h k
      ∙ ap (λ (g : View). below (strip a q) g (below (strip b q) (view n1) (view root q)))
          (fun_ext λ rest. sym (view-append b rest root n2 e2))
      ∙ ap
          (λ (g : View).
            below (strip a q) (λ rest. view root (b ++ rest)) (below (strip b q) g (view root q)))
          (fun_ext λ rest. sym (view-append a rest root n1 e1))

module _ {P : Type 0} ⦃paths : Paths P⦄ where
  open paths use {elements, elements_absolute}

  path_has_prefix-strip :
      (path prefix : P)
      → path_has_prefix path prefix ≡ is_some (strip (below_root prefix) (below_root path))
  unfolding path_has_prefix
  path_has_prefix-strip path prefix =
      let (xs, ex) = elements_absolute path in
      let (ys, ey) = elements_absolute prefix in
      mismatch-strip (elements path) (elements prefix) ∙ rw (ex, ey)

  -- `exchange` returns and throws as specified: EINVAL if one path is a prefix of the other, ENOENT
  -- if one is missing, and else the two subtrees have changed places and nothing else has changed.
  pub exchange-refines :
      (path1 path2 : P) (root : Node)
      → viewed (exchange path1 path2 root) ≡ spec_exchange path1 path2 (view root)
  unfolding exchange get_node
  exchange-refines path1 path2 root =
      rw (path_has_prefix-strip path1 path2, path_has_prefix-strip path2 path1)
        (elim (Option-cases (strip b a)) [
          | inr (r, k) ↦ rw k
          | inl k ↦ rw k (elim (Option-cases (strip a b)) [
            | inr (r, h) ↦ rw h
            | inl h ↦ rw h (elim (Option-cases (find_node a root)) [
              | inl e ↦ rw (e, view_missing a root e)
              | inr (n1, e1) ↦
                  rw (e1, view_found a root n1 e1)
                    (elim (Option-cases (find_node b root)) [
                      | inl e ↦ rw (e, view_missing b root e)
                      | inr (n2, e2) ↦
                          rw (e2, view_found b root n2 e2)
                            (ap ok (fun_ext (view-swapped a b root n1 n2 e1 e2 h k)))
                    ])
            ])
          ])
        ])
    where
      a : List String
      a = below_root path1

      b : List String
      b = below_root path2
