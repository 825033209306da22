-- ===== src/Tree/Map.antt =====
-- The laws of the map from names to nodes.
use rewofs.Base.{
  ◌≡◌, refl, String, str_eq, eq_iff, none, some, if◌then◌else◌, or_else, arith, subst, Bool-cases,
  Option-cases, inl, inr,
}
use mathlib.Core.Option
use rewofs.Tree.{Node, Children, nil, cons, lookup, insert, emplace, erase, replace}

lookup-insert :
    (k q : String) (v : Node) (cs : Children)
    → lookup k cs ≡ none
    → lookup q (insert k v cs) ≡ (if str_eq k q then some v else lookup q cs)
unfolding lookup insert
lookup-insert k q v nil e = refl
lookup-insert k q v (cons j w cs) e =
    ground (arith, eq_iff j k, eq_iff k q, eq_iff j q, lookup-insert k q v cs)

lookup_same :
    (k q : String) (v : Node) (cs : Children)
    → lookup k cs ≡ some v
    → lookup q cs ≡ (if str_eq k q then some v else lookup q cs)
unfolding lookup
lookup_same k q v cs e = elim (Bool-cases (str_eq k q)) [
  | inl h ↦ rw h (subst (λ r. lookup r cs ≡ some v) ((eq_iff k q).0 h) e)
  | inr h ↦ rw h
]

pub lookup-emplace :
    (k q : String) (v : Node) (cs : Children)
    → lookup q (emplace k v cs)
      ≡ (if str_eq k q then or_else (lookup k cs) (some v) else lookup q cs)
unfolding emplace
lookup-emplace k q v cs = elim (Option-cases (lookup k cs)) [
  | inl e ↦ rw (e, emplace) (lookup-insert k q v cs e)
  | inr (w, e) ↦ rw (e, emplace) (lookup_same k q w cs e)
]

pub lookup-erase :
    (k q : String) (cs : Children)
    → lookup q (erase k cs) ≡ (if str_eq k q then none else lookup q cs)
unfolding lookup erase
lookup-erase k q nil = ground arith
lookup-erase k q (cons j w cs) =
    ground (arith, eq_iff j k, eq_iff k q, eq_iff j q, lookup-erase k q cs)

pub lookup-replace :
    (k q : String) (v : Node) (cs : Children)
    → lookup q (replace k v cs)
      ≡ (if str_eq k q then Option.map (λ (w : Node). v) (lookup k cs) else lookup q cs)
unfolding lookup replace
lookup-replace k q v nil = ground arith
lookup-replace k q v (cons j w cs) =
    ground (arith, eq_iff j k, eq_iff k q, eq_iff j q, lookup-replace k q v cs)
