-- ===== src/Worker/ReadTree.antt =====
-- The answer to `CommandReadTree` on a directory that stays as it is meanwhile, and what the client makes
-- of it.
use rewofs.Base.{
  ℕ, zero, suc, ◌≤◌, ◌≡◌, refl, max, ◌⊎◌, inl, inr, true, false, List, [], ◌∷◌, map, Option, none,
  some, String, arith,
}
use rewofs.Base.Result.{ok, Result}
use rewofs.Messages.{Stat}
use rewofs.Tree.{Node, Children, children}
use rewofs.Tree.View.{view}
use rewofs.BackgroundLoader.{
  ResultReadTree, TreeNode, TreeNodes, tree_node, nil, cons, node_name, populate,
}
use rewofs.BackgroundLoader.Populate.{sent_view, DistinctNames, view-populate}
use rewofs.Worker.{Posix}
use rewofs.Worker.Inspect.{
  Files, stat_or_null, walk_unlinked, build_children, build_fs_fbb_tree, process_read_tree,
  read_entries, process_readdir,
}

abbrev pub names : TreeNodes → List String
names nil = []
names (cons t ts) = node_name t ∷ names ts

-- How deep the recursion goes.
abbrev mutual
  pub depth : TreeNode → ℕ
  depth (tree_node k st ts) = suc (depth_all ts)

  depth_all : TreeNodes → ℕ
  depth_all nil = 0
  depth_all (cons t ts) = max (depth t) (depth_all ts)

module _ {P K : Type 0} (files : Files P K) where
  -- A directory with these entries, or no directory and nothing below it.
  abbrev pub Lists : P → TreeNodes → Type 0
  Lists path ts =
      ((k : K) → files.is_symlink path k ≡ (ok false, k))
      × (((k : K)
            → (files.is_directory path k ≡ (ok true, k))
              × (files.directory path k ≡ ((names ts, none), k)))
          ⊎ (((k : K) → files.is_directory path k ≡ (ok false, k)) × (ts ≡ nil)))

  -- The directory tree at a path, which the calls do not change: links are leaves, and have no entries.
  abbrev mutual
    pub Holds : TreeNode → P → Type 0
    Holds (tree_node k st ts) path =
        (files.filename path ≡ k)
        × ((s : K) → files.lstat path s ≡ (ok st, s))
        × (Lists path ts ⊎ (((s : K) → files.is_symlink path s ≡ (ok true, s)) × (ts ≡ nil)))
        × HoldsAll ts path

    pub HoldsAll : TreeNodes → P → Type 0
    HoldsAll nil path = Unit
    HoldsAll (cons t ts) path = Holds t (files.join path (node_name t)) × HoldsAll ts path

module _ {P K : Type 0} (posix : Posix P K) (files : Files P K) where
  walk_holds :
      (path : P) (ts : TreeNodes) (s : K)
      → Lists files path ts ⊎ (((s : K) → files.is_symlink path s ≡ (ok true, s)) × (ts ≡ nil))
      → walk_unlinked posix files (files.is_symlink path s) path ≡ (names ts, s)
  walk_holds path ts s (inr (link, e)) = rw (link s, e)
  walk_holds path ts s (inl (plain, inl dir)) = rw (plain s) (rw ((dir s).0) (rw ((dir s).1)))
  walk_holds path ts s (inl (plain, inr (other, e))) = rw (plain s) (rw (other s, e))

  build_children-cons :
      (build : P → K → Option TreeNode × K) (path : P) (x : String) (xs : List String) (s : K)
      (t : TreeNode) (ts : TreeNodes)
      → build (files.join path x) s ≡ (some t, s)
      → build_children posix files build path xs s ≡ (some ts, s)
      → build_children posix files build path (x ∷ xs) s ≡ (some (cons t ts), s)
  unfolding build_children
  build_children-cons build path x xs s t ts e f = ground arith

  mutual
    unfolding build_fs_fbb_tree

    build-Holds :
        (t : TreeNode) (path : P) (n : ℕ) (s : K)
        → Holds files t path
        → depth t ≤ n
        → build_fs_fbb_tree posix files n path s ≡ (some t, s)
    build-Holds (tree_node k st ts) path zero s h d = elim d [ ]
    build-Holds (tree_node k st ts) path (suc n) s h d = rw (h.1 s) (
        rw (walk_holds path ts s h.2)
          (rw (build_children-Holds ts path n s h.3 (omega arith)) (rw h.0 (rw (h.1 s)))))

    build_children-Holds :
        (ts : TreeNodes) (path : P) (n : ℕ) (s : K)
        → HoldsAll files ts path
        → depth_all ts ≤ n
        → build_children posix files (build_fs_fbb_tree posix files n) path (names ts) s
          ≡ (some ts, s)
    build_children-Holds nil path n s h d = refl
    build_children-Holds (cons t ts) path n s h d =
        build_children-cons (build_fs_fbb_tree posix files n) path (node_name t) (names ts) s t ts
          (build-Holds t (files.join path (node_name t)) n s h.0 (omega arith))
          (build_children-Holds ts path n s h.1 (omega arith))

  -- The answer to the command holds the whole tree.
  pub process_read_tree-Holds :
      (t : TreeNode) (path : P) (n : ℕ) (s : K)
      → Holds files t (posix.map_path path)
      → depth t ≤ n
      → process_read_tree posix files n path s ≡ (some (record { res_errno = 0; tree = t }), s)
  unfolding process_read_tree
  process_read_tree-Holds t path n s h d = rw (build-Holds t (posix.map_path path) n s h d)

  -- Of a directory tree that stays as it is, and is not deeper than the bound, the server sends all; and
  -- where no directory has two entries of one name, the tree that the client fills from an empty node has at
  -- each path the attributes that the server's file has.
  populate-read_tree :
      (t : TreeNode) (path : P) (n : ℕ) (s : K) (root : Node)
      → Holds files t (posix.map_path path)
      → depth t ≤ n
      → DistinctNames t
      → children root ≡ Children.nil
      → (sent : ResultReadTree) × (process_read_tree posix files n path s ≡ (some sent, s))
        × (sent.res_errno ≡ 0)
        × ((q : List String) → view (populate sent.tree root) q ≡ sent_view q t)
  unfolding process_read_tree
  populate-read_tree t path n s root h d distinct empty = (
    record { res_errno = 0; tree = t },
    process_read_tree-Holds t path n s h d,
    refl,
    λ q. view-populate q t root distinct empty,
  )

  read_entries_lem :
      (xs : List String) (s : K) (found : P → Result Stat)
      → ((p : P) (k : K) → files.lstat p k ≡ (found p, k))
      → read_entries posix files xs s
        ≡ (map (λ x. (x, stat_or_null (found (files.name_path x)))) xs, s)
  unfolding read_entries
  read_entries_lem [] s found h = refl
  read_entries_lem (x ∷ xs) s found h =
      rw (h (files.name_path x) s) (rw (read_entries_lem xs s found h))

  -- The attributes in the answer to `CommandReaddir` are those of the bare names, which are looked up in
  -- the server's own directory, and not in the one that is read: two directories with the same names get
  -- the same answer.
  pub process_readdir_same :
      (path other : P) (s : K) (xs : List String) (found : P → Result Stat)
      → ((p : P) (k : K) → files.lstat p k ≡ (found p, k))
      → files.directory (posix.map_path path) s ≡ ((xs, none), s)
      → files.directory (posix.map_path other) s ≡ ((xs, none), s)
      → (process_readdir posix files path s ≡ (
        record {
          res_errno = 0;
          items = map (λ x. (x, stat_or_null (found (files.name_path x)))) xs;
        },
        s,
      ))
        × (process_readdir posix files other s ≡ process_readdir posix files path s)
  unfolding process_readdir
  process_readdir_same path other s xs found h d e =
      (rw d (rw (read_entries_lem xs s found h)), rw d (rw e refl))
