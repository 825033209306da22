-- ===== src/System/Mirror.antt =====
-- The loader of the client over the `Worker` of the server.
use rewofs.Base.{ℕ, ◌≤◌, ◌≡◌, ap, List, Option, none, some, String}
use rewofs.Base.Paths.{Paths}
use rewofs.Base.Result.{ok}
use rewofs.Content.Contract.{IsValid}
use rewofs.Tree.View.{view}
use rewofs.Cache.{Cache}
use rewofs.BackgroundLoader.{TreeNode, ResultReadTree}
use rewofs.BackgroundLoader.Populate.{sent_view, DistinctNames}
use rewofs.BackgroundLoader.Preload.{PathText, Prereads, files_list}
use rewofs.BackgroundLoader.Fragments.{SizesFit}
use rewofs.BackgroundLoader.Valid.{AnswersFit}
use rewofs.BackgroundLoader.Request.{TreeRequests, load, replaced}
use rewofs.BackgroundLoader.Request.Refine.{answer_to, load-refines}
use rewofs.Worker.{Posix}
use rewofs.Worker.Inspect.{Files, process_read_tree}
use rewofs.Worker.ReadTree.{Holds, depth, process_read_tree-Holds}

-- The kernel of the server, and its answer on the way.
abbrev pub Link : Type 0 → Type 0
Link K = K × Option ResultReadTree

module _ {P K : Type 0} (posix : Posix P K) (files : Files P K) (n : ℕ) (root : P) where
  -- The server handles the request for its tree at once, and its answer reaches the client.
  abbrev pub linked : TreeRequests (Link K)
  linked = record {
    add_command = λ s. let r = process_read_tree posix files n root s.0 in (0, (r.1, r.0));
    wait_for_result = λ mid s. (s.1, (s.0, none));
  }

  linked-answer :
      (t : TreeNode) (s : Link K)
      → Holds files t (posix.map_path root)
      → depth t ≤ n
      → (answer_to linked s).0 ≡ some (record { res_errno = 0; tree = t })
  linked-answer t s h d =
      ap (λ (r : Option ResultReadTree × K). r.0)
        (process_read_tree-Holds posix files t root n s.0 h d)

module _ {P K : Type 0} ⦃paths : Paths P⦄ (posix : Posix P K) (files : Files P K) (n : ℕ)
    (root : P) where
  -- From end to end: where the directory that the server exports stays as it is while the server walks it, is
  -- not deeper than the bound, and has no two entries of one name, a load returns, and the tree in the
  -- client's cache has at each path the attributes of what is there on the server, and nothing else; the
  -- cached content is valid. The answers to the preloading are any whose blocks end, padded, below 2 ^ 64, and
  -- no file to preload has a size of more than 2 ^ 64 - IO_FRAGMENT_SIZE.
  pub load-mirror :
      (prereads : Prereads P (Link K)) (text : PathText P) (c : Cache P) (s : Link K) (t : TreeNode)
      → Holds files t (posix.map_path root)
      → depth t ≤ n
      → DistinctNames t
      → SizesFit (files_list text (replaced (linked posix files n root) t c).tree)
      → AnswersFit prereads
      → let after = load (linked posix files n root) prereads text (c, s) in
        (after.0 ≡ ok tt)
        × IsValid after.1.0.content
        × ((q : List String) → view after.1.0.tree q ≡ sent_view q t)
  load-mirror prereads text c s t h d distinct sizes fits =
      load-refines (linked posix files n root) prereads text (c, s) t
        (linked-answer posix files n root t s h d) distinct sizes fits
