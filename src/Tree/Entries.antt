-- ===== src/Tree/Entries.antt =====
-- Entries of a directory, in the tree and in its view.
use mathlib.Core.Option.{none-ne-some, some-injective}
use mathlib.Core.Bool.{false≢true}
use rewofs.Base.{
  ◌≡◌, refl, sym, ◌∙◌, Bool, true, false, List, [], ◌∷◌, ◌++◌, String, none, some, eq_refl,
  Option-cases, inl, inr, ◌↔◌,
}
use rewofs.Base.Paths.{Paths}
use rewofs.Base.Result.{Result, ok, raise}
use rewofs.Messages.{Stat}
use rewofs.Tree.{
  Node, node, nil, cons, st, children, lookup, find_node, new_node, below_root, is_empty,
}
use rewofs.Tree.View.{view, view-nil, view-cons, view-cons_some, found-cons, view-strip, strip}
use rewofs.Tree.Spec.{View, fresh}

-- The view of the tree that a call returns.
abbrev pub viewed : Result Node → Result View
viewed (ok root) = ok (view root)
viewed (raise e) = raise e

pub strip-append_self : (p q : List String) → strip p (p ++ q) ≡ some q
strip-append_self [] q = refl
strip-append_self (x ∷ p) q = rw (eq_refl x) (strip-append_self p q)

pub view-append :
    (p q : List String) (root n : Node) → find_node p root ≡ some n → view root (p ++ q) ≡ view n q
view-append p q root n e = view-strip p (p ++ q) q root n e (strip-append_self p q)

pub view_found :
    (p : List String) (root n : Node) → find_node p root ≡ some n → view root p ≡ some (st n)
unfolding view
view_found p root n e = rw (e, view)

pub view_missing : (p : List String) (root : Node) → find_node p root ≡ none → view root p ≡ none
unfolding view
view_missing p root e = rw (e, view)

-- An entry of the directory at `p`, there and missing.
pub view-entry_some :
    (p : List String) (x : String) (root n c : Node)
    → find_node p root ≡ some n
    → lookup x (children n) ≡ some c
    → view root (p ++ x ∷ []) ≡ some (st c)
view-entry_some p x root n c e f =
    view-append p (x ∷ []) root n e ∙ view-cons x [] n ∙ rw f (view-nil c)

pub view-entry_none :
    (p : List String) (x : String) (root n : Node)
    → find_node p root ≡ some n
    → lookup x (children n) ≡ none
    → view root (p ++ x ∷ []) ≡ none
view-entry_none p x root n e f = view-append p (x ∷ []) root n e ∙ view-cons x [] n ∙ rw f

pub found_of_view :
    (p : List String) (root : Node) (s : Stat)
    → view root p ≡ some s
    → (n : Node) × (find_node p root ≡ some n)
found_of_view p root s h = elim (Option-cases (find_node p root)) [
  | inl e ↦ absurd (none-ne-some s (sym (view_missing p root e) ∙ h))
  | inr (n, e) ↦ (n, e)
]

pub missing_of_view : (p : List String) (root : Node) → view root p ≡ none → find_node p root ≡ none
missing_of_view p root h = elim (Option-cases (find_node p root)) [
  | inl e ↦ e
  | inr (n, e) ↦ absurd (none-ne-some (st n) (sym h ∙ view_found p root n e))
]

pub lookup_of_view :
    (p : List String) (x : String) (root n : Node)
    → find_node p root ≡ some n
    → view root (p ++ x ∷ []) ≡ none
    → lookup x (children n) ≡ none
lookup_of_view p x root n e h = elim (Option-cases (lookup x (children n))) [
  | inl f ↦ f
  | inr (c, f) ↦ absurd (none-ne-some (st c) (sym h ∙ view-entry_some p x root n c e f))
]

pub view-new_node : (k : String) (q : List String) → view (new_node k) q ≡ fresh q
unfolding view find_node lookup
view-new_node k [] = refl
view-new_node k (x ∷ xs) = refl

pub find_node-append :
    (p : List String) (x : String) (root n c : Node)
    → find_node p root ≡ some n
    → lookup x (children n) ≡ some c
    → find_node (p ++ x ∷ []) root ≡ some c
unfolding find_node
find_node-append [] x root n c e f = rw (some-injective root n e) (rw (f, find_node))
find_node-append (y ∷ p) x root n c e f =
    let (d, ed, en) = found-cons y p root n e in
    rw (ed, find_node) (find_node-append p x d n c en f)

-- Whether a node has children, read off its view.
is_empty-view :
    (n : Node) → (is_empty (children n) ≡ true) ↔ ((x : String) → view n (x ∷ []) ≡ none)
unfolding lookup
is_empty-view (node m s nil) = (λ e x. view-cons x [] (node m s nil), λ h. refl)
is_empty-view (node m s (cons k v cs)) = (
  λ e. absurd (false≢true e),
  λ h. absurd (
      none-ne-some (st v)
        (sym (h k) ∙ view-cons_some k [] (node m s (cons k v cs)) v (rw (eq_refl k)) ∙ view-nil v)),
)

Bool_ext : (a b : Bool) → (a ≡ true) ↔ (b ≡ true) → a ≡ b
Bool_ext true b e = sym (e.0 refl)
Bool_ext false true e = e.1 refl
Bool_ext false false e = refl

-- `empty` tells of the node at `p` what the code reads off its map.
pub same_empty :
    (p : List String) (root c : Node) (empty : Bool)
    → find_node p root ≡ some c
    → (empty ≡ true) ↔ ((x : String) → view root (p ++ x ∷ []) ≡ none)
    → is_empty (children c) ≡ empty
same_empty p root c empty e E = Bool_ext _ _ (
  λ h. E.1 (λ x. view-append p (x ∷ []) root c e ∙ (is_empty-view c).0 h x),
  λ h. (is_empty-view c).1 (λ x. sym (view-append p (x ∷ []) root c e) ∙ E.0 h x),
)

module _ {P : Type 0} ⦃paths : Paths P⦄ where
  open paths use {is_root, elements, parent_path, filename, elements_split, elements_absolute}

  pub below_root_split :
      (p : P) → is_root p ≡ false → below_root p ≡ below_root (parent_path p) ++ filename p ∷ []
  below_root_split p h =
      let (names, e) = elements_absolute (parent_path p) in rw (elements_split p h) (rw e)
