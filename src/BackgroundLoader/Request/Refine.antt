-- ===== src/BackgroundLoader/Request/Refine.antt =====
-- A load makes the cached tree the server's.
use rewofs.Base.{
  ℕ, ◌≡◌, ◌≢◌, refl, ap, ◌∙◌, List, Option, none, some, String, ◌==◌, false, subst, Option-cases,
  inl, inr, arith,
}
use rewofs.Base.Paths.{Paths}
use rewofs.Base.Result.{Result, ok, raise}
use rewofs.Content.Contract.{IsValid}
use rewofs.Content.{blocks_at}
use rewofs.Tree.{Node, Children, node, children}
use rewofs.Tree
use rewofs.Tree.View.{view}
use rewofs.Cache.{Cache}
use rewofs.Cache
use rewofs.BackgroundLoader.{TreeNode, ResultReadTree}
use rewofs.BackgroundLoader.Populate.{sent_view, DistinctNames, view-populate}
use rewofs.BackgroundLoader.Preload.{PathText, Prereads, preload_files, files_list, logged}
use rewofs.BackgroundLoader.Fragments.{SizesFit}
use rewofs.BackgroundLoader.Valid.{AnswersFit, preload_files_bulks-IsValid}
use rewofs.BackgroundLoader.Request.{TreeRequests, populate_tree, load, replaced}

children-reset : (n : Node) → children (Tree.reset n) ≡ Children.nil
unfolding Tree.reset
children-reset (node k st cs) = refl

differs : (n : ℕ) → n ≢ 0 → (n == 0) ≡ false
differs n h = ground arith

-- No answer came, or one with an errno.
abbrev IsFailure : Option ResultReadTree → Type 0
IsFailure none = Unit
IsFailure (some message) = message.res_errno ≢ 0

-- The answer to the request that the loader sends in this state of the channel.
abbrev pub answer_to : {T : Type 0} → TreeRequests T → T → Option ResultReadTree × T
answer_to trees t = let sent = trees.add_command t in trees.wait_for_result sent.0 sent.1

module _ {P T : Type 0} ⦃paths : Paths P⦄ (trees : TreeRequests T) where
  logged-return :
      (prereads : Prereads P T) (r : Result (Unit {0}) × (Cache P × T))
      → r.0 ≡ ok tt
      → logged prereads r ≡ (ok tt, r.1)
  logged-return prereads (ok u, s) h = refl
  logged-return prereads (raise e, s) h = cc

  replaced-children : (c : Cache P) → children (Cache.reset c).tree ≡ Children.nil
  unfolding Cache.reset
  replaced-children c = children-reset c.tree

  reset-IsValid : (c : Cache P) → IsValid (Cache.reset c).content
  unfolding Cache.reset rewofs.Content.reset blocks_at
  reset-IsValid c q = (tt, tt)

  populate_tree-ok :
      (s : Cache P × T) (t : TreeNode)
      → (answer_to trees s.1).0 ≡ some (record { res_errno = 0; tree = t })
      → populate_tree trees s ≡ (ok tt, (replaced trees t s.0, (answer_to trees s.1).1))
  unfolding populate_tree
  populate_tree-ok s t e = rw (e, populate_tree)

  preload_files-IsValid :
      (prereads : Prereads P T) (text : PathText P) (s : Cache P × T)
      → AnswersFit prereads
      → IsValid s.0.content
      → ((preload_files prereads text s).0 ≡ ok tt)
        × IsValid (preload_files prereads text s).1.0.content
        × ((preload_files prereads text s).1.0.tree ≡ s.0.tree)
  unfolding preload_files
  preload_files-IsValid prereads text s fits v =
      preload_files_bulks-IsValid prereads (files_list text s.0.tree) s fits v

  load-ok :
      (prereads : Prereads P T) (text : PathText P) (s : Cache P × T) (t : TreeNode)
      → (answer_to trees s.1).0 ≡ some (record { res_errno = 0; tree = t })
      → (preload_files prereads text (replaced trees t s.0, (answer_to trees s.1).1)).0 ≡ ok tt
      → load trees prereads text s
        ≡ (ok tt, (preload_files prereads text (replaced trees t s.0, (answer_to trees s.1).1)).1)
  unfolding load
  load-ok prereads text s t e done =
      rw (load, populate_tree-ok s t e)
        (logged-return prereads
          (preload_files prereads text (replaced trees t s.0, (answer_to trees s.1).1)) done)

  -- With a valid answer to its request, in which no directory has two entries of one name, a load returns;
  -- the cached tree has at each path the attributes that the answer has there, whatever was cached before,
  -- and the cached content is valid. The preloading may fail in any way, where no answer of it has a block
  -- that ends, padded, at 2 ^ 64 or behind, and no file to preload a size of more than 2 ^ 64 -
  -- IO_FRAGMENT_SIZE.
  pub load-refines :
      (prereads : Prereads P T) (text : PathText P) (s : Cache P × T) (t : TreeNode)
      → (answer_to trees s.1).0 ≡ some (record { res_errno = 0; tree = t })
      → DistinctNames t
      → SizesFit (files_list text (replaced trees t s.0).tree)
      → AnswersFit prereads
      → ((load trees prereads text s).0 ≡ ok tt)
        × IsValid (load trees prereads text s).1.0.content
        × ((q : List String) → view (load trees prereads text s).1.0.tree q ≡ sent_view q t)
  unfolding load
  load-refines prereads text s t e distinct sizes fits =
      let next : Cache P × T = (replaced trees t s.0, (answer_to trees s.1).1) in
      let (done, v, same) = preload_files-IsValid prereads text next fits (reset-IsValid s.0) in
      let l : load trees prereads text s ≡ (ok tt, (preload_files prereads text next).1) =
        load-ok prereads text s t e done in
      rw l (
        refl,
        v,
        λ q.
            ap (λ (n : Node). view n q) same
            ∙ view-populate q t (Cache.reset s.0).tree distinct (replaced-children s.0),
      )

  -- Without an answer, or with an errno in it, the load returns as well and leaves the cache as it is.
  load_failed :
      (prereads : Prereads P T) (text : PathText P) (s : Cache P × T)
      → IsFailure (answer_to trees s.1).0
      → load trees prereads text s ≡ (ok tt, (s.0, (answer_to trees s.1).1))
  unfolding load populate_tree
  load_failed prereads text s f = elim (Option-cases (answer_to trees s.1).0) [
    | inl e ↦ rw (e, load, populate_tree) refl
    | inr (m, e) ↦
        let bad : (m.res_errno == 0) ≡ false = differs m.res_errno (subst IsFailure e f) in
        rw (e, load, populate_tree, bad) refl
  ]
