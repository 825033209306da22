-- ===== src/BackgroundLoader/Request.antt =====
-- `populate_tree()` of `BackgroundLoader`, src/rewofs/client/vfs.cpp, which asks for the server's tree, and
-- what `tree_loader` does with a tree that has been invalidated.
pub mod Refine
use rewofs.Base.{ℕ, Option, none, some, ◌==◌, if◌then◌else◌}
use rewofs.Base.Paths.{Paths}
use rewofs.Base.Result.{Result, ok, raise, system_error, ehostunreach}
use rewofs.Cache.{Cache}
use rewofs.Cache
use rewofs.Vfs.Call.{Action, ◌>>◌}
use rewofs.BackgroundLoader.{TreeNode, ResultReadTree, populate}
use rewofs.BackgroundLoader.Preload.{PathText, Prereads, preload_files, logged}

-- `SingleComm` at `CommandReadTree` of "/", over the state of `Prereads`: the command, and the wait for its
-- answer, which has 60 seconds to come.
pub record TreeRequests (T : Type 0) : Type 0 where
  pub add_command : T → ℕ × T
  pub wait_for_result : ℕ → T → Option ResultReadTree × T

module _ {P T : Type 0} ⦃paths : Paths P⦄ (trees : TreeRequests T) where
  -- `m_cache.reset()`, and the tree from the root on.
  abbrev pub replaced : TreeNode → Cache P → Cache P
  replaced tree c = let empty = Cache.reset c in record empty { tree = populate tree empty.tree }

  unfoldable pub populate_tree : Action (Cache P × T) (Unit {0})
  unfolding Cache.reset populate
  populate_tree s =
      let sent = trees.add_command s.1 in
      let got = trees.wait_for_result sent.0 sent.1 in
      elim got.0 [
        | none ↦ (raise (system_error ehostunreach), (s.0, got.1))
        | some message ↦
            if message.res_errno == 0
            then (ok tt, (replaced message.tree s.0, got.1))
            else (raise (system_error message.res_errno), (s.0, got.1))
      ]

  -- The body of `if (m_tree_invalidated.load())`: what is thrown is logged.
  unfoldable pub load : Prereads P T → PathText P → Action (Cache P × T) (Unit {0})
  unfolding populate_tree preload_files
  load prereads text s = logged prereads ((populate_tree >> preload_files prereads text) s)
