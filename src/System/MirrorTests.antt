-- ===== src/System/MirrorTests.antt =====
-- The loader over the sample server.
use rewofs.Base.{ℕ, ◌≡◌, refl, List, [], ◌∷◌, ◌++◌, none, String, arith}
use rewofs.Base.Result.{ok}
use rewofs.Samples.{list_paths}
use rewofs.Content.Contract.{IsValid}
use rewofs.Tree.{initial}
use rewofs.Tree.View.{view}
use rewofs.Cache.{Cache}
use rewofs.Cache
use rewofs.BackgroundLoader.{populate}
use rewofs.BackgroundLoader.Populate.{sent_view}
use rewofs.BackgroundLoader.Preload.{PathText, Prereads, files_list}
use rewofs.BackgroundLoader.Request.{load}
use rewofs.Worker.Sample.{kernel_of, files_of, exported, Holds-exported}
use rewofs.System.Mirror.{Link, linked, load-mirror}

-- A server that answers no preloading.
abbrev silent : Prereads (List String) (Link ℕ)
silent = record { add_command = λ b s. (0, s); wait_for_result = λ mid s. (none, s) }

abbrev text : PathText (List String)
text = record { root = []; child = λ p x. p ++ x ∷ []; native = λ p. "/plain" }

abbrev empty : Cache (List String)
empty = record { tree = initial; content = [] }

load-mirror_example :
    let after = load (linked kernel_of files_of 3 []) silent text (empty, (0, none)) in
    (after.0 ≡ ok tt)
    × IsValid after.1.0.content
    × ((q : List String) → view after.1.0.tree q ≡ sent_view q exported)
unfolding files_list populate Cache.reset
load-mirror_example =
    load-mirror kernel_of files_of 3 [] silent text empty (0, none) exported Holds-exported
      (omega arith) (refl, (refl, tt, tt), tt) tt (λ mid s m e. cc)
