-- ===== src/Tree.antt =====
-- The tree cache, `Node` and `Tree` of src/rewofs/client/cache.hpp and cache.cpp. A reference into
-- the tree is a path: reading through it is `find_node`, writing through it `update_node`.
pub mod Map
pub mod View
pub mod Spec
pub mod Entries
pub mod Refine
pub mod Rename
pub mod Taken
pub mod Exchange
mod Tests
use Prim.Native.Nat.{Ordering}
use Prim.Native.String.{compare}
use rewofs.Base.{
  ◌≡◌, Bool, true, false, ◌||◌, List, [], ◌∷◌, String, str_eq, Option, none, some, if◌then◌else◌,
}
use rewofs.Base.Paths.{Paths}
use rewofs.Base.Result.{
  Result, ok, raise, system_error, undefined, ◌>>=◌, ◌>>◌, throw_if, or_throw, enoent, eacces,
  eexist, einval, enotempty,
}
use rewofs.Messages.{Stat, no_stat}

mutual
  pub data Node : Type 0 where
    node : String → Stat → Children → Node

  -- `std::map<std::string, Node>`, its entries in the order of their keys.
  pub data Children : Type 0 where
    nil : Children
    cons : String → Node → Children → Children

abbrev pub name : Node → String
name (node n st cs) = n

abbrev pub st : Node → Stat
st (node n s cs) = s

abbrev pub children : Node → Children
children (node n s cs) = cs

-- `children.find(k)`
unfoldable pub lookup : String → Children → Option Node
lookup k nil = none
lookup k (cons j v cs) = if str_eq j k then some v else lookup k cs

-- The place of a new key in the order of the keys.
unfoldable pub insert : String → Node → Children → Children
insert k v nil = cons k v nil
insert k v (cons j w cs) =
    let later = cons j w (insert k v cs) in
    elim (compare k j) [ Ordering.lt ↦ cons k v (cons j w cs) | _ ↦ later ]

-- `children.emplace(k, v)`: an entry that is there stays as it is.
unfoldable pub emplace : String → Node → Children → Children
unfolding insert lookup
emplace k v cs = elim (lookup k cs) [ none ↦ insert k v cs | some _ ↦ cs ]

-- `children.erase(k)`
unfoldable pub erase : String → Children → Children
erase k nil = nil
erase k (cons j w cs) = if str_eq j k then erase k cs else cons j w (erase k cs)

-- A write through a reference to the value at `k`.
unfoldable pub replace : String → Node → Children → Children
replace k v nil = nil
replace k v (cons j w cs) = if str_eq j k then cons j v cs else cons j w (replace k v cs)

-- The walk of `get_node`, from the names below the root.
unfoldable pub find_node : List String → Node → Option Node
unfolding lookup
find_node [] n = some n
find_node (x ∷ xs) n = elim (lookup x (children n)) [ none ↦ none | some c ↦ find_node xs c ]

unfoldable pub update_node : List String → (Node → Node) → Node → Node
unfolding lookup replace
update_node [] f n = f n
update_node (x ∷ xs) f n = elim (lookup x (children n)) [
  | none ↦ n
  | some c ↦ node (name n) (st n) (replace x (update_node xs f c) (children n))
]

abbrev pub add_child : String → Node → Node → Node
add_child k v (node n s cs) = node n s (emplace k v cs)

abbrev pub drop_child : String → Node → Node
drop_child k (node n s cs) = node n s (erase k cs)

abbrev pub set_st : Stat → Node → Node
set_st s (node n _ cs) = node n s cs

-- `std::swap` of `st` and `children` writes these two fields.
abbrev pub set_body : Stat → Children → Node → Node
set_body s cs (node n _ _) = node n s cs

abbrev pub is_some {ℓ} : {A : Type ℓ} → Option A → Bool
is_some none = false
is_some (some a) = true

abbrev pub is_empty : Children → Bool
is_empty nil = true
is_empty (cons k v cs) = false

-- `Node new_node{}; new_node.name = name;`
abbrev pub new_node : String → Node
new_node k = node k no_stat nil

-- The constructor `Tree()`.
abbrev pub initial : Node
initial = node "." (record no_stat { st_mode = 0o040444 }) nil

-- `Tree::reset` keeps the name and the attributes of the root.
unfoldable pub reset : Node → Node
reset (node n s cs) = node n s nil

-- `Tree::make_node(parent, name)`
unfoldable make_child : String → Node → Node
unfolding emplace
make_child k parent = add_child k (new_node k) parent

-- What `std::mismatch` leaves of the second sequence.
unfoldable pub mismatch : List String → List String → List String
mismatch [] ys = ys
mismatch (x ∷ xs) [] = []
mismatch (x ∷ xs) (y ∷ ys) = if str_eq x y then mismatch xs ys else y ∷ ys

-- Two references, as paths, to the same node.
unfoldable pub same_names : List String → List String → Bool
same_names [] [] = true
same_names [] (y ∷ ys) = false
same_names (x ∷ xs) [] = false
same_names (x ∷ xs) (y ∷ ys) = if str_eq x y then same_names xs ys else false

abbrev pub is_end : List String → Bool
is_end [] = true
is_end (x ∷ xs) = false

abbrev tail : List String → List String
tail [] = []
tail (x ∷ xs) = xs

module _ {P : Type 0} ⦃paths : Paths P⦄ where
  open paths use {is_root, elements, parent_path, filename}

  unfoldable pub path_has_prefix : P → P → Bool
  unfolding mismatch
  path_has_prefix path prefix = is_end (mismatch (elements path) (elements prefix))

  -- The names behind the initial "/".
  abbrev pub below_root : P → List String
  below_root path = tail (elements path)

  unfoldable pub get_node : P → Node → Result Node
  unfolding find_node
  get_node path root = or_throw (system_error enoent) (find_node (below_root path) root)

  unfoldable pub remove_single : P → Node → Result Node
  unfolding get_node update_node erase lookup
  remove_single path root = do
    throw_if (is_root path) (system_error eacces)
    parent ← get_node (parent_path path) root
    target ← or_throw (system_error enoent) (lookup (filename path) (children parent))
    throw_if (if is_empty (children target) then false else true) (system_error enotempty)
    ok (update_node (below_root (parent_path path)) (drop_child (filename path)) root)

  unfoldable pub make_node : P → Node → Result Node
  unfolding get_node update_node emplace lookup
  make_node path root = do
    throw_if (is_root path) (system_error eexist)
    parent ← get_node (parent_path path) root
    throw_if (is_some (lookup (filename path) (children parent))) (system_error eexist)
    ok (
        update_node (below_root (parent_path path))
          (add_child (filename path) (new_node (filename path))) root)

  -- The second half of `rename`, with the node at `moved_at` moved out and its entry erased. A
  -- `parent_to` that is the moved node itself dangles. One below it is still valid, since a map keeps
  -- its nodes where it is moved: `emplace` makes a cycle of the moved nodes, which nothing reaches from
  -- the root.
  unfoldable pub attach : List String → P → Node → Node → Result Node
  unfolding find_node update_node emplace same_names
  attach moved_at to moved cut = elim (find_node (below_root (parent_path to)) cut) [
    | none ↦ if same_names moved_at (below_root (parent_path to)) then raise undefined else ok cut
    | some _ ↦ ok (update_node (below_root (parent_path to)) (add_child (filename to) moved) cut)
  ]

  unfoldable pub rename : P → P → Node → Result Node
  unfolding get_node update_node erase lookup attach
  rename from to root = do
    throw_if (is_root from || is_root to) (system_error eexist)
    parent_from ← get_node (parent_path from) root
    moved ← or_throw (system_error enoent) (lookup (filename from) (children parent_from))
    parent_to ← get_node (parent_path to) root
    throw_if (is_some (lookup (filename to) (children parent_to))) (system_error eexist)
    attach (below_root from) to moved
        (update_node (below_root (parent_path from)) (drop_child (filename from)) root)

  unfoldable pub exchange : P → P → Node → Result Node
  unfolding get_node update_node path_has_prefix
  exchange path1 path2 root = do
    throw_if (path_has_prefix path1 path2 || path_has_prefix path2 path1) (system_error einval)
    node1 ← get_node path1 root
    node2 ← get_node path2 root
    let swapped1 = update_node (below_root path1) (set_body (st node2) (children node2)) root
    ok (update_node (below_root path2) (set_body (st node1) (children node1)) swapped1)
