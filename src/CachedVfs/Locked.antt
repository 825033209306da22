-- ===== src/CachedVfs/Locked.antt =====
-- The parts of the operations of `CachedVfs` on names that run under the lock: what the cache holds
-- when they have returned.
use rewofs.Base.{ℕ, ◌≡◌, sym, ap, ◌∙◌, List, String}
use rewofs.Base.Paths.{Paths}
use rewofs.Base.Result.{Result, ok, ok-injective}
use rewofs.Messages.{Stat}
use rewofs.Content.{delete_file}
use rewofs.Tree.{below_root}
use rewofs.Tree.View.{view, strip, below}
use rewofs.Tree.Spec.{View, nothing}
use rewofs.Cache.{Cache}
use rewofs.Cache
use rewofs.Cache.View.{assigned, leaf, view-set_node_st, view-make_node_st, view-remove_single}
use rewofs.Vfs.Call.{then_call_ok, ◌>>◌}
use rewofs.CachedVfs.{State, File, made_directory, made_link, removed, created, on_cache, enter}
use rewofs.CachedVfs.Sub.{on_cache_ok}

module _ {P : Type 0} ⦃paths : Paths P⦄ where
  -- The view with the two changes of `mkdir` and `symlink`.
  abbrev pub with_entry : P → Stat → Stat → View → View
  with_entry path stat parent_st v q =
      below (strip (below_root path) q) (leaf stat)
        (assigned (strip (below_root (paths.parent_path path)) q) parent_st (v q))

  abbrev pub around_entry : P → Stat → Stat → View → View
  around_entry path stat parent_st v q =
      assigned (strip (below_root (paths.parent_path path)) q) parent_st
        (below (strip (below_root path) q) (leaf stat) (v q))

  -- The view with the two changes of `rmdir` and `unlink`.
  abbrev pub without_entry : P → Stat → View → View
  without_entry path parent_st v q =
      assigned (strip (below_root (paths.parent_path path)) q) parent_st
        (below (strip (below_root path) q) nothing (v q))

module _ {P S : Type 0} ⦃paths : Paths P⦄ where
  open paths use {parent_path}

  pub made_directory_ok :
      (path : P) (stat parent_st : Stat) (s s' : State P S)
      → made_directory path stat parent_st s ≡ (ok tt, s')
      → (s'.opened_files ≡ s.opened_files)
        × (s'.cache.content ≡ s.cache.content)
        × ((q : List String)
            → view s'.cache.tree q ≡ with_entry path stat parent_st (view s.cache.tree) q)
  unfolding made_directory Cache.assign_st
  made_directory_ok path stat parent_st s s' e =
      let assign : State P S → Result (Unit {0}) × State P S =
        on_cache (λ c. ok (Cache.assign_st path stat c)) in
      let (u, s1, e1, f1) =
        then_call_ok (on_cache (Cache.set_node_st (parent_path path) parent_st) s)
          (λ z. on_cache (Cache.make_node path) >> assign) tt s' e in
      let (v, s2, e2, f2) =
        then_call_ok (on_cache (Cache.make_node path) s1) (λ z. assign) tt s' f1 in
      let (g1, k1) = on_cache_ok (Cache.set_node_st (parent_path path) parent_st) u s s1 e1 in
      let (g2, k2) = on_cache_ok (Cache.make_node path) v s1 s2 e2 in
      let (g3, k3) = on_cache_ok (λ c. ok (Cache.assign_st path stat c)) tt s2 s' f2 in
      let (a1, w1) = view-set_node_st (parent_path path) parent_st s.cache s1.cache g1 in
      let (a2, w2) = view-make_node_st path stat s1.cache s2.cache g2 in
      let a3 : Cache.assign_st path stat s2.cache ≡ s'.cache = ok-injective _ _ g3 in
      (cc, sym (ap (λ (c : Cache P). c.content) a3) ∙ a2 ∙ a1, λ q. rw (← a3) (w2 q ∙ rw (w1 q)))

  pub made_link_ok :
      (path : P) (stat parent_st : Stat) (s s' : State P S)
      → made_link path stat parent_st s ≡ (ok tt, s')
      → (s'.opened_files ≡ s.opened_files)
        × (s'.cache.content ≡ s.cache.content)
        × ((q : List String)
            → view s'.cache.tree q ≡ around_entry path stat parent_st (view s.cache.tree) q)
  unfolding made_link Cache.assign_st
  made_link_ok path stat parent_st s s' e =
      let assign : State P S → Result (Unit {0}) × State P S =
        on_cache (λ c. ok (Cache.assign_st path stat c)) in
      let parent : State P S → Result (Unit {0}) × State P S =
        on_cache (Cache.set_node_st (parent_path path) parent_st) in
      let (u, s1, e1, f1) =
        then_call_ok (on_cache (Cache.make_node path) s) (λ z. assign >> parent) tt s' e in
      let (v, s2, e2, f2) = then_call_ok (assign s1) (λ z. parent) tt s' f1 in
      let (g1, k1) = on_cache_ok (Cache.make_node path) u s s1 e1 in
      let (g2, k2) = on_cache_ok (λ c. ok (Cache.assign_st path stat c)) v s1 s2 e2 in
      let (g3, k3) = on_cache_ok (Cache.set_node_st (parent_path path) parent_st) tt s2 s' f2 in
      let (a1, w1) = view-make_node_st path stat s.cache s1.cache g1 in
      let (a3, w3) = view-set_node_st (parent_path path) parent_st s2.cache s'.cache g3 in
      let a2 : Cache.assign_st path stat s1.cache ≡ s2.cache = ok-injective _ _ g2 in
      (cc, a3 ∙ sym (ap (λ (c : Cache P). c.content) a2) ∙ a1, λ q. w3 q ∙ rw (← a2) (rw (w1 q)))

  pub removed_ok :
      (path : P) (parent_st : Stat) (s s' : State P S)
      → removed path parent_st s ≡ (ok tt, s')
      → (s'.opened_files ≡ s.opened_files)
        × (s'.cache.content ≡ delete_file path s.cache.content)
        × ((q : List String)
            → view s'.cache.tree q ≡ without_entry path parent_st (view s.cache.tree) q)
  unfolding removed
  removed_ok path parent_st s s' e =
      let parent : State P S → Result (Unit {0}) × State P S =
        on_cache (Cache.set_node_st (parent_path path) parent_st) in
      let (u, s1, e1, f1) =
        then_call_ok (on_cache (Cache.remove_single path) s) (λ z. parent) tt s' e in
      let (g1, k1) = on_cache_ok (Cache.remove_single path) u s s1 e1 in
      let (g2, k2) = on_cache_ok (Cache.set_node_st (parent_path path) parent_st) tt s1 s' f1 in
      let (a1, w1) = view-remove_single path s.cache s1.cache g1 in
      let (a2, w2) = view-set_node_st (parent_path path) parent_st s1.cache s'.cache g2 in
      (cc, a2 ∙ a1, λ q. w2 q ∙ rw (w1 q))

  pub created_ok :
      (file : File P) (stat : Stat) (fh : ℕ) (s s' : State P S)
      → created file stat s ≡ (ok fh, s')
      → (s'.cache.content ≡ s.cache.content)
        × ((q : List String)
            → view s'.cache.tree q
              ≡ below (strip (below_root file.path) q) (leaf stat) (view s.cache.tree q))
  unfolding created Cache.assign_st
  created_ok file stat fh s s' e =
      let assign : State P S → Result (Unit {0}) × State P S =
        on_cache (λ c. ok (Cache.assign_st file.path stat c)) in
      let (u, s1, e1, f1) =
        then_call_ok (on_cache (Cache.make_node file.path) s) (λ z. assign >> enter file) fh s' e in
      let (v, s2, e2, f2) = then_call_ok (assign s1) (λ z. enter file) fh s' f1 in
      let (g1, k1) = on_cache_ok (Cache.make_node file.path) u s s1 e1 in
      let (g2, k2) = on_cache_ok (λ c. ok (Cache.assign_st file.path stat c)) v s1 s2 e2 in
      let (a1, w1) = view-make_node_st file.path stat s.cache s1.cache g1 in
      let a2 : Cache.assign_st file.path stat s1.cache ≡ s'.cache =
        ok-injective _ _ g2 ∙ ap (λ (z : Result ℕ × State P S). z.1.cache) f2 in
      (sym (ap (λ (c : Cache P). c.content) a2) ∙ a1, λ q. rw (← a2) (w1 q))
