-- ===== src/Tree/View.antt =====
-- A tree seen as a partial function from paths to attributes, and the updates in that view.
use rewofs.Base.{
  ◌≡◌, refl, sym, ◌∙◌, ap, String, str_eq, eq_iff, Option, none, some, if◌then◌else◌, arith, List,
  [], ◌∷◌, ◌++◌, Bool-cases, Option-cases, inl, inr,
}
use mathlib.Core.Option
use mathlib.Core.Option.{none-ne-some, some-injective}
use rewofs.Messages.{Stat}
use rewofs.Tree.{
  Node, Children, node, st, children, lookup, emplace, erase, replace, find_node, update_node,
  add_child, drop_child,
}
use rewofs.Tree.Map.{lookup-emplace, lookup-erase, lookup-replace}

-- The attributes of the node at a path, by the names below the root.
unfoldable pub view : Node → List String → Option Stat
unfolding find_node
view n q = Option.map st (find_node q n)

-- What is left of `q` behind the prefix `p`.
abbrev pub strip : List String → List String → Option (List String)
strip [] q = some q
strip (x ∷ p) [] = none
strip (x ∷ p) (y ∷ q) = if str_eq x y then strip p q else none

-- A path below a prefix is read by `f`, any other has the value `other`.
abbrev pub below : Option (List String) → (List String → Option Stat) → Option Stat → Option Stat
below none f other = other
below (some rest) f other = f rest

strip-append :
    (p : List String) (x : String) (q : List String)
    → strip (p ++ x ∷ []) q ≡ elim (strip p q) [ none ↦ none | some rest ↦ strip (x ∷ []) rest ]
strip-append [] x q = refl
strip-append (z ∷ p) x [] = refl
strip-append (z ∷ p) x (y ∷ q) = ground (arith, strip-append p x q)

pub found-cons :
    (x : String) (p : List String) (root n : Node)
    → find_node (x ∷ p) root ≡ some n
    → (c : Node) × (lookup x (children root) ≡ some c) × (find_node p c ≡ some n)
unfolding find_node
found-cons x p root n e = elim (Option-cases (lookup x (children root))) [
  | inl f ↦ absurd (none-ne-some n (rw (← e) (rw (f, find_node))))
  | inr (c, f) ↦ (c, f, sym (rw (f, find_node)) ∙ e)
]

pub view-nil : (n : Node) → view n [] ≡ some (st n)
unfolding view find_node
view-nil n = refl

pub view-cons :
    (y : String) (q : List String) (n : Node)
    → view n (y ∷ q) ≡ elim (lookup y (children n)) [ none ↦ none | some c ↦ view c q ]
unfolding view find_node
view-cons y q n = ground arith

pub view-cons_some :
    (y : String) (q : List String) (n c : Node)
    → lookup y (children n) ≡ some c
    → view n (y ∷ q) ≡ view c q
view-cons_some y q n c e = view-cons y q n ∙ rw e

pub view-strip :
    (p q rest : List String) (root n : Node)
    → find_node p root ≡ some n
    → strip p q ≡ some rest
    → view root q ≡ view n rest
unfolding view find_node
view-strip [] q rest root n e f = cc
view-strip (x ∷ p) [] rest root n e f = cc
view-strip (x ∷ p) (y ∷ q) rest root n e f =
    let (c, ec, en) = found-cons x p root n e in
    elim (Bool-cases (str_eq x y)) [
      | inl h ↦
          view-cons_some y q root c (rw (← (eq_iff x y).0 h) ec)
          ∙ view-strip p q rest c n en (rw h at f)
      | inr h ↦ absurd (none-ne-some rest (rw h at f))
    ]

update_node-cons :
    (x : String) (p : List String) (f : Node → Node) (m : String) (s : Stat) (cs : Children)
    (c : Node)
    → lookup x cs ≡ some c
    → update_node (x ∷ p) f (node m s cs) ≡ node m s (replace x (update_node p f c) cs)
unfolding update_node
update_node-cons x p f m s cs c e = rw (e, update_node)

-- An update at `p` changes what is at or below `p`, and nothing else.
pub view-update_node :
    (p q : List String) (f : Node → Node) (root n : Node)
    → find_node p root ≡ some n
    → view (update_node p f root) q ≡ below (strip p q) (view (f n)) (view root q)
unfolding find_node update_node
view-update_node [] q f root n e = ap (λ (r : Node). view (f r) q) (some-injective root n e)
view-update_node (x ∷ p) [] f (node m s cs) n e =
    let (c, ec, en) = found-cons x p (node m s cs) n e in
    rw (update_node-cons x p f m s cs c ec)
      (view-nil (node m s (replace x (update_node p f c) cs)) ∙ sym (view-nil (node m s cs)))
view-update_node (x ∷ p) (y ∷ q) f (node m s cs) n e =
    let (c, ec, en) = found-cons x p (node m s cs) n e in
    rw (update_node-cons x p f m s cs c ec) (elim (Bool-cases (str_eq x y)) [
      | inl h ↦ rw h (
          view-cons_some y q (node m s (replace x (update_node p f c) cs)) (update_node p f c)
            (lookup-replace x y (update_node p f c) cs ∙ rw (h, ec))
          ∙ view-update_node p q f c n en
          ∙ ap (below (strip p q) (view (f n)))
              (sym (view-cons_some y q (node m s cs) c (rw (← (eq_iff x y).0 h) ec))))
      | inr h ↦ rw h (
          view-cons y q (node m s (replace x (update_node p f c) cs))
          ∙ rw (lookup-replace x y (update_node p f c) cs, h) (sym (view-cons y q (node m s cs))))
    ])

-- The entry `x` of the directory at `p`, filled where it was empty.
pub view-add_child :
    (p q : List String) (x : String) (v root n : Node)
    → find_node p root ≡ some n
    → lookup x (children n) ≡ none
    → view (update_node p (add_child x v) root) q
      ≡ below (strip (p ++ x ∷ []) q) (view v) (view root q)
view-add_child p q x v root n e free =
    view-update_node p q (add_child x v) root n e ∙ elim (Option-cases (strip p q)) [
      | inl h ↦ rw (h, strip-append p x q, h)
      | inr (rest, h) ↦
          rw (h, strip-append p x q, h, view-strip p q rest root n e h) (filled rest n free)
    ]
  where
    filled :
        (rest : List String) (n : Node)
        → lookup x (children n) ≡ none
        → view (add_child x v n) rest ≡ below (strip (x ∷ []) rest) (view v) (view n rest)
    filled [] (node m s cs) free =
        view-nil (node m s (emplace x v cs)) ∙ sym (view-nil (node m s cs))
    filled (y ∷ rest) (node m s cs) free = elim (Bool-cases (str_eq x y)) [
      | inl h ↦ rw h (
          view-cons_some y rest (node m s (emplace x v cs)) v
            (lookup-emplace x y v cs ∙ rw (h, free)))
      | inr h ↦ rw h (
          view-cons y rest (node m s (emplace x v cs))
          ∙ rw (lookup-emplace x y v cs, h) (sym (view-cons y rest (node m s cs))))
    ]

pub view-drop_child :
    (p q : List String) (x : String) (root n : Node)
    → find_node p root ≡ some n
    → view (update_node p (drop_child x) root) q
      ≡ below (strip (p ++ x ∷ []) q) (λ rest. none) (view root q)
view-drop_child p q x root n e =
    view-update_node p q (drop_child x) root n e ∙ elim (Option-cases (strip p q)) [
      | inl h ↦ rw (h, strip-append p x q, h)
      | inr (rest, h) ↦
          rw (h, strip-append p x q, h, view-strip p q rest root n e h) (emptied rest n)
    ]
  where
    emptied :
        (rest : List String) (n : Node)
        → view (drop_child x n) rest ≡ below (strip (x ∷ []) rest) (λ rest. none) (view n rest)
    emptied [] (node m s cs) = view-nil (node m s (erase x cs)) ∙ sym (view-nil (node m s cs))
    emptied (y ∷ rest) (node m s cs) = elim (Bool-cases (str_eq x y)) [
      | inl h ↦ rw h (view-cons y rest (node m s (erase x cs)) ∙ rw (lookup-erase x y cs, h))
      | inr h ↦ rw h (
          view-cons y rest (node m s (erase x cs))
          ∙ rw (lookup-erase x y cs, h) (sym (view-cons y rest (node m s cs))))
    ]
