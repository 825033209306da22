-- ===== src/Breadth.antt =====
-- `breadth_first_tree` of src/rewofs/path.cpp, with which the watcher takes the fingerprint of the tree.
-- What `boost::filesystem` gives is a parameter.
pub mod Entries
pub mod Levels
mod Tests
use rewofs.Base.{
  ℕ, zero, suc, ◌+◌, ◌%◌, ◌^◌, Bool, true, false, ◌&&◌, List, [], ◌∷◌, ◌++◌, map, Option, none,
  some, length, ◌==◌,
}
use rewofs.Base.Paths.{Paths}
use rewofs.Base.Result.{Result, ok, raise}
use rewofs.Vfs.Call.{Action}

-- `BreadthDirectoryItem`; of the entry's status only whether it is a directory is read, and the entries
-- are equal if their paths are.
pub record Item (P : Type 0) : Type 0 where
  pub path : P
  pub is_directory : Bool
  pub children_count : ℕ

-- `operator==`
abbrev pub same_item : {P : Type 0} ⦃paths : Paths P⦄ → Item P → Item P → Bool
same_item ⦃paths = paths⦄ a b = elim (paths.equal a.path b.path) [
  | yes e ↦ a.children_count == b.children_count
  | no e ↦ false
]

-- Whether a path is a directory and no link to one, and the loop over `directory_iterator` with the same
-- of each child. Both may throw.
pub record Directories (P K : Type 0) : Type 0 where
  pub symlink_status : P → Action K Bool
  pub directory : P → Action K (List (P × Bool))

abbrev pub child_item : {P : Type 0} → P × Bool → Item P
child_item (path, is_directory) = record {
  path = path;
  is_directory = is_directory;
  children_count = 0;
}

-- `children_count` is set through a `uint32_t`.
abbrev pub with_count : {P : Type 0} → Item P → ℕ → Item P
with_count parent n = record parent { children_count = n % 2 ^ 32 }

module _ {P K : Type 0} (directories : Directories P K) where
  -- The loop: `list` is the items before `current_idx`, then those from there on. The code has no bound;
  -- here the first argument bounds the rounds, and `none` is a longer walk.
  unfoldable pub walk : ℕ → List (Item P) → List (Item P) → K → Option (Result (List (Item P))) × K
  walk fuel before [] k = (some (ok before), k)
  walk zero before (parent ∷ list) k = (none, k)
  walk (suc fuel) before (parent ∷ list) k = elim parent.is_directory [
    | false ↦ walk fuel (before ++ parent ∷ []) list k
    | true ↦
        let r = directories.directory parent.path k in
        elim r.0 [
          | raise e ↦ (some (raise e), r.1)
          | ok children ↦
              walk fuel (before ++ with_count parent (length children) ∷ [])
                (list ++ map child_item children) r.1
        ]
  ]

  unfoldable pub breadth_first_tree : ℕ → P → K → Option (Result (List (Item P))) × K
  unfolding walk
  breadth_first_tree fuel root_path k =
      let r = directories.symlink_status root_path k in
      elim r.0 [
        | raise e ↦ (some (raise e), r.1)
        | ok is_directory ↦ walk fuel [] (child_item (root_path, is_directory) ∷ []) r.1
      ]
