-- ===== src/BackgroundLoader.antt =====
-- `BackgroundLoader` of src/rewofs/client/vfs.hpp and vfs.cpp: its thread as a state machine, and the tree
-- that it fills. The loading itself, which talks to the server, is one turn of the machine.
pub mod Loop
pub mod Populate
pub mod Preload
pub mod Fragments
pub mod Bulks
pub mod Valid
pub mod Request
mod Tests
mod PreloadTests
use rewofs.Base.{
  ℕ, zero, suc, ◌+◌, ◌-◌, ◌*◌, ◌/◌, ◌%◌, ◌^◌, Bool, true, false, List, [], ◌∷◌, String, Option,
  none, some, if◌then◌else◌,
}
use rewofs.Messages.{Stat}
use rewofs.Tree.{Node, Children, node, lookup, replace, new_node, emplace}

-- `messages::TreeNode`
mutual
  pub data TreeNode : Type 0 where
    tree_node : String → Stat → TreeNodes → TreeNode

  pub data TreeNodes : Type 0 where
    nil : TreeNodes
    cons : TreeNode → TreeNodes → TreeNodes

pub record ResultReadTree : Type 0 where
  pub res_errno : ℕ
  pub tree : TreeNode

abbrev pub node_name : TreeNode → String
node_name (tree_node k st children) = k

-- The child that `make_node` gives a reference to.
abbrev pub child_of : String → Children → Node
child_of k children = elim (lookup k children) [ none ↦ new_node k | some c ↦ c ]

-- `populate_tree(node, fbb_node)`, and its loop over the children.
unfoldable mutual
  unfolding lookup replace emplace

  pub populate : TreeNode → Node → Node
  populate (tree_node k st trees) (node _ _ children) = node k st (populate_all trees children)

  pub populate_all : TreeNodes → Children → Children
  populate_all nil children = children
  populate_all (cons t trees) children = populate_all trees (
      replace (node_name t) (populate t (child_of (node_name t) children))
        (emplace (node_name t) (new_node (node_name t)) children))

unfoldable pub block_aligned_size : ℕ → ℕ
block_aligned_size sz = (sz + 4096 - 1) % 2 ^ 64 / 4096 * 4096

-- Where the thread of `tree_loader` is: asleep in `m_cv.wait`, in `populate_tree` and `preload_files`, or
-- returned.
pub data Phase : Type 0 where
  waiting : Phase
  loading : Phase
  ended : Phase

pub record Loader : Type 0 where
  pub tree_invalidated : Bool
  pub quit : Bool
  pub phase : Phase

-- `invalidate_tree`, called by `process_remote_changed` and from other threads; `stop`; and a turn of the
-- loader's own thread.
pub data Event : Type 0 where
  invalidate : Event
  stop : Event
  turn : Event

-- `m_cv.wait` returns only when the tree is invalidated. At the end of a load the flag is cleared, and
-- the head of the `while` loop reads `m_quit`.
abbrev pub thread_turn : Phase → Loader → Loader
thread_turn Phase.waiting s = if s.tree_invalidated then record s { phase = Phase.loading } else s
thread_turn Phase.loading s = record s {
  tree_invalidated = false;
  phase = if s.quit then Phase.ended else Phase.waiting;
}
thread_turn Phase.ended s = s

unfoldable pub step : Event → Loader → Loader
step Event.invalidate s = record s { tree_invalidated = true }
step Event.stop s = record s { quit = true }
step Event.turn s = thread_turn s.phase s

-- An interleaving of the threads.
unfoldable pub steps : List Event → Loader → Loader
unfolding step
steps [] s = s
steps (e ∷ es) s = steps es (step e s)

-- `start`
abbrev pub started : Loader
started = record { tree_invalidated = false; quit = false; phase = Phase.waiting }
