-- ===== src/Cache.antt =====
-- `Cache` of src/rewofs/client/cache.hpp and cache.cpp: the tree and the content of one client. The
-- mutex is not modelled: a call of the model is what the code does while it holds the lock.
pub mod View
use rewofs.Base.{ℕ, List, [], ◌∷◌, Option, none, some, String}
use rewofs.Base.Paths.{Paths}
use rewofs.Base.Result.{Result, ok, raise, ◌>>=◌}
use rewofs.Messages.{Stat}
use rewofs.Content.{Content}
use rewofs.Content
use rewofs.Tree.{Node, initial, below_root, update_node, set_st}
use rewofs.Tree

pub record Cache (P : Type 0) : Type 0 where
  pub tree : Node
  pub content : Content P

module _ {P : Type 0} ⦃paths : Paths P⦄ where
  unfoldable pub reset : Cache P → Cache P
  unfolding Tree.reset Content.reset
  reset c = record { tree = Tree.reset c.tree; content = Content.reset c.content }

  unfoldable pub get_node : P → Cache P → Result Node
  get_node path c = Tree.get_node path c.tree

  unfoldable pub remove_single : P → Cache P → Result (Cache P)
  remove_single path c = do
    tree ← Tree.remove_single path c.tree
    ok (record { tree = tree; content = Content.delete_file path c.content })

  unfoldable pub make_node : P → Cache P → Result (Cache P)
  make_node path c = do tree ← Tree.make_node path c.tree; ok (record c { tree = tree })

  unfoldable pub rename : P → P → Cache P → Result (Cache P)
  rename from to c = do
    tree ← Tree.rename from to c.tree
    ok (record {
      tree = tree;
      content = Content.delete_file to (Content.delete_file from c.content);
    })

  unfoldable pub exchange : P → P → Cache P → Result (Cache P)
  exchange node1 node2 c = do
    tree ← Tree.exchange node1 node2 c.tree
    ok (record {
      tree = tree;
      content = Content.delete_file node2 (Content.delete_file node1 c.content);
    })

  unfoldable pub read : P → ℕ → ℕ → Cache P → Option (List ℕ)
  read path start size c = Content.read path start size c.content

  unfoldable pub write : P → ℕ → List ℕ → Cache P → Result (Cache P)
  write path start bytes c = do
    content ← Content.write path start bytes c.content
    ok (record c { content = content })

  -- `node.st = st` through the reference that `make_node` or `get_node` has returned.
  unfoldable pub assign_st : P → Stat → Cache P → Cache P
  assign_st path st c = record c { tree = update_node (below_root path) (set_st st) c.tree }

  -- `get_node(path).st = st`
  unfoldable pub set_node_st : P → Stat → Cache P → Result (Cache P)
  unfolding get_node assign_st
  set_node_st path st c = do _ ← get_node path c; ok (assign_st path st c)
