-- ===== src/Tree/Spec.antt =====
-- What the operations of `Tree` promise, on a tree seen as a partial function from paths to
-- attributes: a specification that knows nothing of nodes, references and maps.
use rewofs.Base.{
  ◌||◌, Bool, true, false, List, [], ◌∷◌, ◌++◌, String, Option, none, some, if◌then◌else◌,
}
use rewofs.Base.Paths.{Paths}
use rewofs.Base.Result.{
  Result, ok, raise, system_error, undefined, ◌>>=◌, ◌>>◌, throw_if, or_throw, enoent, eacces,
  eexist, einval, enotempty,
}
use rewofs.Messages.{Stat, no_stat}
use rewofs.Tree.{below_root, is_some}
use rewofs.Tree.View.{strip, below}

abbrev pub View : Type 0
View = List String → Option Stat

-- A new entry has no attributes yet, and nothing below it.
abbrev pub fresh : View
fresh [] = some no_stat
fresh (x ∷ xs) = none

abbrev pub nothing : View
nothing rest = none

-- The first argument is what is left of the target's parent behind the source: a target right below the
-- source is not defined, and one further below it loses the source.
abbrev pub moved_to : Option (List String) → List String → List String → View → Result View
moved_to (some []) from to v = raise undefined
moved_to (some (x ∷ rest)) from to v = ok (λ q. below (strip from q) nothing (v q))
moved_to none from to v =
    ok λ q. below (strip to q) (λ rest. v (from ++ rest)) (below (strip from q) nothing (v q))

module _ {P : Type 0} ⦃paths : Paths P⦄ where
  open paths use {is_root, parent_path}

  abbrev at_parent : P → View → Option Stat
  at_parent path v = v (below_root (parent_path path))

  abbrev pub spec_make_node : P → View → Result View
  spec_make_node path v = do
    throw_if (is_root path) (system_error eexist)
    _ ← or_throw (system_error enoent) (at_parent path v)
    throw_if (is_some (v (below_root path))) (system_error eexist)
    ok (λ q. below (strip (below_root path) q) fresh (v q))

  -- `empty` says that the view has no entry right below the path.
  abbrev pub spec_remove_single : P → Bool → View → Result View
  spec_remove_single path empty v = do
    throw_if (is_root path) (system_error eacces)
    _ ← or_throw (system_error enoent) (at_parent path v)
    _ ← or_throw (system_error enoent) (v (below_root path))
    throw_if (if empty then false else true) (system_error enotempty)
    ok (λ q. below (strip (below_root path) q) nothing (v q))

  abbrev pub spec_rename : P → P → View → Result View
  spec_rename from to v = do
    throw_if (is_root from || is_root to) (system_error eexist)
    _ ← or_throw (system_error enoent) (at_parent from v)
    _ ← or_throw (system_error enoent) (v (below_root from))
    _ ← or_throw (system_error enoent) (at_parent to v)
    throw_if (is_some (v (below_root to))) (system_error eexist)
    moved_to (strip (below_root from) (below_root (parent_path to))) (below_root from)
        (below_root to) v

  abbrev is_below : P → P → Bool
  is_below path prefix = is_some (strip (below_root prefix) (below_root path))

  abbrev pub spec_exchange : P → P → View → Result View
  spec_exchange path1 path2 v = do
    throw_if (is_below path1 path2 || is_below path2 path1) (system_error einval)
    _ ← or_throw (system_error enoent) (v (below_root path1))
    _ ← or_throw (system_error enoent) (v (below_root path2))
    ok λ q.
        below (strip (below_root path1) q) (λ rest. v (below_root path2 ++ rest))
          (below (strip (below_root path2) q) (λ rest. v (below_root path1 ++ rest)) (v q))
