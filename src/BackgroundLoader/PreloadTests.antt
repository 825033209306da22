-- ===== src/BackgroundLoader/PreloadTests.antt =====
-- The preloading at inputs: a server that answers with two bytes, and then no more.
use mathlib.Core.Option.{some-injective}
use rewofs.Base.{
  ◌++◌, ℕ, zero, suc, ◌+◌, ◌-◌, ◌<◌, ◌≡◌, ◌^◌, refl, subst, List, [], ◌∷◌, Option, none, some,
  String, true, false, bytes_of, length, arith,
}
use rewofs.Messages.{no_stat}
use rewofs.Base.Result.{ok}
use rewofs.Samples.{list_paths}
use rewofs.Channel.{ResultPreread}
use rewofs.Tree.{initial}
use rewofs.Cache.{Cache}
use rewofs.Content.{blocks_at}
use rewofs.Content.Contract.{IsValid}
use rewofs.RemoteVfs.{fragments}
use Prim.Native.String.{◌++◌ as append}
use rewofs.Tree.View.{view}
use rewofs.BackgroundLoader.Populate.{sent_view}
use rewofs.BackgroundLoader.Preload.{files_list}
use rewofs.BackgroundLoader.{populate}
use rewofs.Cache
use rewofs.BackgroundLoader.Request.{TreeRequests, load, replaced}
use rewofs.BackgroundLoader.Request.Refine.{load-refines}
use rewofs.BackgroundLoader.{TreeNode, TreeNodes, tree_node, ResultReadTree, block_aligned_size}
use rewofs.BackgroundLoader.Preload.{
  FileInfo, PathText, Prereads, file_blocks, all_blocks, send_blocks, matches_pattern,
}
use rewofs.BackgroundLoader.Fragments.{SizesFit, file_blocks-eq-fragments, all_fragments}
use rewofs.BackgroundLoader.Bulks.{bulks, in_bulks, concat, AreBounded, send_blocks-bulks}

abbrev path : List String
path = "d" ∷ ".gitignore" ∷ []

abbrev answer : ResultPreread (List String)
answer = record { res = 0; res_errno = 0; path = path; offset = 4096; bytes = 7 ∷ 8 ∷ [] }

abbrev answer_of : ℕ → Option (ResultPreread (List String))
answer_of zero = none
answer_of (suc n) = some answer

-- The state is the number of answers the server still gives.
abbrev comm : Prereads (List String) ℕ
comm = record { add_command = λ b n. (n, n); wait_for_result = λ mid n. (answer_of n, n - 1) }

abbrev files : List (FileInfo (List String))
files = record { path = path; size = 40000 } ∷ record { path = path; size = 5 } ∷ []

abbrev empty : Cache (List String)
empty = record { tree = initial; content = [] }

matched : matches_pattern (bytes_of "/d/.gitignore") ≡ true
unfolding matches_pattern
matched = refl

-- The dot of the pattern is not escaped.
matched_other : matches_pattern (bytes_of "/d/Xgitignore") ≡ true
unfolding matches_pattern
matched_other = refl

not_matched : matches_pattern (bytes_of "/d/a.gitignore") ≡ false
unfolding matches_pattern
not_matched = refl

answer-fits :
    (n : ℕ) (m : ResultPreread (List String))
    → answer_of n ≡ some m
    → m.offset + block_aligned_size (length m.bytes) < 2 ^ 64
unfolding block_aligned_size
answer-fits zero m e = cc
answer-fits (suc n) m e =
    subst
      (λ (m : ResultPreread (List String)). m.offset + block_aligned_size (length m.bytes) < 2 ^ 64)
      (some-injective answer m e) (omega arith)

empty-IsValid : IsValid empty.content
unfolding blocks_at
empty-IsValid q = (tt, tt)

-- The theorems at inputs.
file_blocks-eq-fragments_example : file_blocks 40000 100 40000 ≡ fragments 40000 100 40000
file_blocks-eq-fragments_example =
    file_blocks-eq-fragments 40000 100 40000 (omega arith) (omega arith)

send_blocks-bulks_example :
    let parts = bulks (all_blocks files) [] 0 in
    (send_blocks comm (all_blocks files) [] 0 (empty, 2) ≡ in_bulks comm parts (empty, 2))
    × (concat parts ≡ all_fragments files)
    × AreBounded parts
send_blocks-bulks_example = send_blocks-bulks comm files empty 2 (omega arith, (omega arith, tt))

abbrev served : TreeNode
served = tree_node "" no_stat (
    TreeNodes.cons
      (tree_node "d" no_stat (
        TreeNodes.cons (tree_node ".gitignore" (record no_stat { st_size = 5 }) TreeNodes.nil)
          TreeNodes.nil))
      TreeNodes.nil)

abbrev tree_answer : ℕ → Option ResultReadTree
tree_answer zero = none
tree_answer (suc n) = some (record { res_errno = 0; tree = served })

abbrev trees : TreeRequests ℕ
trees = record { add_command = λ n. (n, n); wait_for_result = λ mid n. (tree_answer n, n - 1) }

abbrev native : List String → String
native [] = ""
native (x ∷ xs) = append "/" (append x (native xs))

abbrev text : PathText (List String)
text = record { root = []; child = λ p x. p ++ x ∷ []; native = native }

sizes : SizesFit (files_list text (replaced trees served empty).tree)
unfolding files_list populate Cache.reset
sizes = (omega arith, tt)

load-refines_example :
    ((load trees comm text (empty, 2)).0 ≡ ok tt)
    × IsValid (load trees comm text (empty, 2)).1.0.content
    × ((q : List String) → view (load trees comm text (empty, 2)).1.0.tree q ≡ sent_view q served)
load-refines_example =
    load-refines trees comm text (empty, 2) served refl (refl, (refl, tt, tt), tt) sizes
      (λ mid n. answer-fits n)
