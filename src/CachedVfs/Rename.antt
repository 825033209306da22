-- ===== src/CachedVfs/Rename.antt =====
-- `CachedVfs::rename`: the cached tree and the cached content after it, and a target that is there.
use rewofs.Base.{
  ℕ, ◌≡◌, ap, ◌∙◌, false, none, some, arith, Bool-cases, inl, inr, ite, if◌then◌else◌,
}
use rewofs.Base.Paths.{Paths}
use rewofs.Base.Result.{Result, ok, raise, system_error, eexist}
use rewofs.Messages.{Stat}
use rewofs.Content.{delete_file}
use rewofs.Content.Contract.{cached, cached-delete_file}
use rewofs.Tree.{below_root}
use rewofs.Tree
use rewofs.Tree.View.{view}
use rewofs.Tree.Spec.{View, spec_rename, spec_exchange}
use rewofs.Tree.Entries.{viewed}
use rewofs.Tree.Rename.{rename-refines}
use rewofs.Tree.Exchange.{exchange-refines}
use rewofs.Tree.Taken.{rename_taken}
use rewofs.Cache
use rewofs.Vfs.{Vfs, IdDispenser}
use rewofs.CachedVfs.{State, rename, renamed, rename_exchange, on_cache, on_sub}
use rewofs.CachedVfs.Sub.{on_sub_ok}
use rewofs.Vfs.Call.{then_call_ok}

-- What a call has made of the cached tree, or thrown.
abbrev pub tree_after : {P S : Type 0} → Result (Unit {0}) × State P S → Result View
tree_after (ok u, s) = ok (view s.cache.tree)
tree_after (raise e, s) = raise e

module _ {P S : Type 0} ⦃paths : Paths P⦄ (old_path new_path : P) (flags : ℕ) where
  open paths use {is_root}

  tree-renamed :
      (s : State P S)
      → tree_after (renamed old_path new_path flags s) ≡ (
          if rename_exchange flags
          then viewed (Tree.exchange old_path new_path s.cache.tree)
          else viewed (Tree.rename old_path new_path s.cache.tree))
  unfolding renamed Cache.rename Cache.exchange
  tree-renamed s = ground arith

  content-renamed :
      (u : Unit {0}) (s s' : State P S)
      → renamed old_path new_path flags s ≡ (ok u, s')
      → (s'.opened_files ≡ s.opened_files)
        × (s'.cache.content ≡ delete_file new_path (delete_file old_path s.cache.content))
  unfolding renamed Cache.rename Cache.exchange
  content-renamed u s s1 e = ground arith

module _ {P S : Type 0} ⦃paths : Paths P⦄ (sub : Vfs P (IdDispenser × S)) (old_path new_path : P)
    (flags : ℕ) where
  open paths use {is_root}

  -- Where the other file system has renamed or exchanged, the cached tree follows its specification:
  -- the outcome, errors included, is the one that the view of the tree before determines. A rename to a
  -- target right below the source, which the other file system would have to carry out, is undefined,
  -- and with one further below it the source is gone with all that is below it.
  pub rename-refines_vfs :
      (s : State P S)
      → (sub.rename old_path new_path flags s.shared).0 ≡ ok tt
      → tree_after (rename sub old_path new_path flags s) ≡ (
          if rename_exchange flags
          then spec_exchange old_path new_path (view s.cache.tree)
          else spec_rename old_path new_path (view s.cache.tree))
  unfolding rename
  rename-refines_vfs s e =
      rw (e, rename)
        (tree-renamed old_path new_path flags (called s)
          ∙ elim (Bool-cases (rename_exchange flags)) [
            | inl h ↦ rw h (exchange-refines old_path new_path s.cache.tree)
            | inr h ↦ rw h (rename-refines old_path new_path s.cache.tree)
          ])
    where
      called : State P S → State P S
      called s = record s { shared = (sub.rename old_path new_path flags s.shared).1 }

  -- A `rename`, not an exchange, of one path of the cached tree onto another, neither of them the
  -- root: where the other file system has carried it out, the operation throws EEXIST all the same
  -- and leaves the cache and the opened files as they were.
  pub rename_over :
      (s : State P S) (a b : Stat)
      → (sub.rename old_path new_path flags s.shared).0 ≡ ok tt
      → rename_exchange flags ≡ false
      → is_root old_path ≡ false
      → is_root new_path ≡ false
      → view s.cache.tree (below_root old_path) ≡ some a
      → view s.cache.tree (below_root new_path) ≡ some b
      → rename sub old_path new_path flags s ≡ (
        raise (system_error eexist),
        record s { shared = (sub.rename old_path new_path flags s.shared).1 },
      )
  unfolding rename renamed Cache.rename
  rename_over s a b e x h1 h2 v1 v2 =
      rw (e, rename, x, on_cache, rename_taken old_path new_path s.cache.tree a b h1 h2 v1 v2)

  -- A `rename` or an exchange that returns forgets the cached bytes of the two paths, and of no other
  -- path: those of the files below a directory stay where they were. The opened files keep their paths.
  pub cached-rename :
      (s s' : State P S)
      → rename sub old_path new_path flags s ≡ (ok tt, s')
      → (s'.opened_files ≡ s.opened_files)
        × ((q : P) (x : ℕ)
            → cached s'.cache.content q x
              ≡ ite
                  (paths.equal new_path q)
                  none
                  (ite (paths.equal old_path q) none (cached s.cache.content q x)))
  unfolding rename
  cached-rename s s' e =
      let (u, s1, e1, f1) =
        then_call_ok (on_sub (sub.rename old_path new_path flags) s)
          (λ z. renamed old_path new_path flags) tt s' e in
      let (files, content) = content-renamed old_path new_path flags tt s1 s' f1 in
      let (r1, k1) = on_sub_ok (sub.rename old_path new_path flags) u s s1 e1 in
      let b : s1.cache.content ≡ s.cache.content = ap (λ (z : State P S). z.cache.content) k1 in
      (
        files ∙ ap (λ (z : State P S). z.opened_files) k1,
        λ q x.
            rw (content, b)
              (cached-delete_file new_path (delete_file old_path s.cache.content) q x
                ∙ rw (cached-delete_file old_path s.cache.content q x)),
      )
