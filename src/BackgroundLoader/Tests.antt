-- ===== src/BackgroundLoader/Tests.antt =====
-- The background loader at inputs.
use rewofs.Base.{◌≡◌, ◌≢◌, refl, List, [], ◌∷◌, true, false, some}
use rewofs.Messages.{no_stat}
use rewofs.Tree.{initial, lookup, replace, emplace, insert}
use rewofs.Tree.View.{view}
use rewofs.BackgroundLoader.{
  TreeNode, tree_node, nil, cons, populate, Loader, Phase, Event, steps, started,
  block_aligned_size,
}
use rewofs.BackgroundLoader.Loop.{steps-stop, steps-loading, due}

aligned : block_aligned_size 4097 ≡ 8192
unfolding block_aligned_size
aligned = refl

-- A directory with one file.
abbrev sent : TreeNode
sent = tree_node "" no_stat (
    cons (tree_node "d" no_stat (cons (tree_node "f" (record no_stat { st_size = 3 }) nil) nil))
      nil)

filled : view (populate sent initial) ("d" ∷ "f" ∷ []) ≡ some (record no_stat { st_size = 3 })
unfolding populate lookup replace emplace insert view
filled = refl

-- The theorems at inputs.
abbrev idle : List Event
idle = Event.stop ∷ Event.turn ∷ Event.turn ∷ []

steps-stop_example : (steps idle started).phase ≡ Phase.waiting
steps-stop_example = steps-stop idle started tt refl refl

abbrev busy : Loader
busy = record started { tree_invalidated = true; phase = Phase.loading }

steps-loading_example :
    let after = steps (Event.invalidate ∷ Event.turn ∷ []) busy in
    (after.tree_invalidated ≡ false) × (after.phase ≢ Phase.loading) × (due after ≡ 0)
steps-loading_example = steps-loading (Event.invalidate ∷ []) busy tt refl

abbrev calls : List Event
calls = Event.invalidate ∷ Event.turn ∷ Event.invalidate ∷ Event.turn ∷ Event.turn ∷ []
