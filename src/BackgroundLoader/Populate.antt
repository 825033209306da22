-- ===== src/BackgroundLoader/Populate.antt =====
-- The tree that `populate_tree` makes of the server's answer.
use rewofs.Base.{
  ◌≡◌, refl, sym, ap, subst, ◌∙◌, Bool-cases, String, str_eq, eq_iff, eq_refl, List, [], ◌∷◌,
  Option, none, some, Option-cases, inl, inr, if◌then◌else◌,
}
use mathlib.Core.Option.{none-ne-some, some-injective}
use rewofs.Messages.{Stat}
use rewofs.Tree.{Node, Children, node, lookup, replace, emplace, new_node, children}
use rewofs.Tree.Map.{lookup-emplace, lookup-replace}
use rewofs.Tree.View.{view, view-nil, view-cons}
use rewofs.BackgroundLoader.{
  TreeNode, TreeNodes, tree_node, nil, cons, node_name, populate, populate_all, child_of,
}

abbrev find_tree : String → TreeNodes → Option TreeNode
find_tree x nil = none
find_tree x (cons t ts) = if str_eq (node_name t) x then some t else find_tree x ts

abbrev trees_of : TreeNode → TreeNodes
trees_of (tree_node k st ts) = ts

abbrev st_of : TreeNode → Stat
st_of (tree_node k st ts) = st

-- The attributes that the message has for a path.
abbrev pub sent_view : List String → TreeNode → Option Stat
sent_view [] t = some (st_of t)
sent_view (x ∷ xs) t = elim (find_tree x (trees_of t)) [ none ↦ none | some u ↦ sent_view xs u ]

-- No directory has two entries of one name.
abbrev mutual
  pub DistinctNames : TreeNode → Type 0
  DistinctNames (tree_node k st ts) = AllDistinct ts

  AllDistinct : TreeNodes → Type 0
  AllDistinct nil = Unit
  AllDistinct (cons t ts) = (find_tree (node_name t) ts ≡ none) × DistinctNames t × AllDistinct ts

DistinctNames-find_tree :
    (x : String) (ts : TreeNodes) (u : TreeNode)
    → AllDistinct ts
    → find_tree x ts ≡ some u
    → DistinctNames u
DistinctNames-find_tree x nil u d e = absurd (none-ne-some u e)
DistinctNames-find_tree x (cons t ts) u d e = elim (Bool-cases (str_eq (node_name t) x)) [
  | inl h ↦ let same : t ≡ u = some-injective t u (rw h at e) in subst DistinctNames same d.1
  | inr h ↦ DistinctNames-find_tree x ts u d.2 (rw h at e)
]

-- A child that is new in `cs` is filled with `v`.
lookup-added :
    (k q : String) (v n : Node) (cs : Children)
    → lookup k cs ≡ none
    → lookup q (replace k v (emplace k n cs)) ≡ (if str_eq k q then some v else lookup q cs)
lookup-added k q v n cs free =
    let there : lookup k (emplace k n cs) ≡ some n =
      lookup-emplace k k n cs ∙ rw (eq_refl k, free) refl in
    lookup-replace k q v (emplace k n cs)
    ∙ rw there (elim (Bool-cases (str_eq k q)) [
      | inl h ↦ rw h refl
      | inr h ↦ rw h (lookup-emplace k q n cs ∙ rw h refl)
    ])

abbrev Free : TreeNodes → Children → Type 0
Free ts cs = (x : String) (u : TreeNode) → find_tree x ts ≡ some u → lookup x cs ≡ none

lookup-populate_all :
    (ts : TreeNodes) (cs : Children) (x : String)
    → AllDistinct ts
    → Free ts cs
    → lookup x (populate_all ts cs)
      ≡ elim (find_tree x ts) [ none ↦ lookup x cs | some u ↦ some (populate u (new_node x)) ]
unfolding populate_all
lookup-populate_all nil cs x d f = refl
lookup-populate_all (cons t ts) cs x d f =
    let k : String = node_name t in
    let free : lookup k cs ≡ none = f k t (rw (eq_refl k) refl) in
    let fresh : child_of k cs ≡ new_node k = rw (free, child_of) refl in
    let v : Node = populate t (child_of k cs) in
    let cs' : Children = replace k v (emplace k (new_node k) cs) in
    let still : Free ts cs' = λ y u e. elim (Bool-cases (str_eq k y)) [
      | inl h ↦
          let same : k ≡ y = (eq_iff k y).0 h in
          absurd (none-ne-some u (sym d.0 ∙ ap (λ (z : String). find_tree z ts) same ∙ e))
      | inr h ↦ lookup-added k y v (new_node k) cs free ∙ rw h (f y u (rw h e))
    ] in
    lookup-populate_all ts cs' x d.2 still ∙ elim (Bool-cases (str_eq k x)) [
      | inl h ↦
          let same : k ≡ x = (eq_iff k x).0 h in
          let gone : find_tree x ts ≡ none = ap (λ (z : String). find_tree z ts) (sym same) ∙ d.0 in
          rw (gone, h)
            (lookup-added k x v (new_node k) cs free
              ∙ rw h (ap some (ap (populate t) (fresh ∙ ap (λ (z : String). new_node z) same))))
      | inr h ↦ rw h (elim (Option-cases (find_tree x ts)) [
        | inl e ↦ rw e (lookup-added k x v (new_node k) cs free ∙ rw h refl)
        | inr (u, e) ↦ rw e refl
      ])
    ]

lookup-nil : (y : String) → lookup y Children.nil ≡ none
unfolding lookup
lookup-nil y = refl

-- Where no directory of the answer has two entries of one name, the tree that is filled from a node with
-- no children has, at each path, the attributes that the answer has.
pub view-populate :
    (q : List String) (t : TreeNode) (n : Node)
    → DistinctNames t
    → children n ≡ Children.nil
    → view (populate t n) q ≡ sent_view q t
unfolding populate
view-populate [] (tree_node k st ts) (node m s cs) d e = view-nil (node k st (populate_all ts cs))
view-populate (x ∷ xs) (tree_node k st ts) (node m s cs) d e =
    let empty : (y : String) → lookup y cs ≡ none = λ y. ap (lookup y) e ∙ lookup-nil y in
    let there = lookup-populate_all ts cs x d (λ y u g. empty y) in
    view-cons x xs (node k st (populate_all ts cs)) ∙ elim (Option-cases (find_tree x ts)) [
      | inl f ↦
          let missing : lookup x (populate_all ts cs) ≡ none = there ∙ rw f (empty x) in
          rw (missing, f, sent_view) refl
      | inr (u, f) ↦
          let found : lookup x (populate_all ts cs) ≡ some (populate u (new_node x)) =
            there ∙ rw f refl in
          rw (found, f, sent_view)
            (view-populate xs u (new_node x) (DistinctNames-find_tree x ts u d f) refl)
    ]
