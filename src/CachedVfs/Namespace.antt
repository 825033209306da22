-- ===== src/CachedVfs/Namespace.antt =====
-- The operations of `CachedVfs` on names: what the cache holds when they have returned.
use rewofs.Base.{ℕ, ◌≡◌, ap, ◌∙◌, List, String, some}
use rewofs.Base.Paths.{Paths}
use rewofs.Base.Result.{ok}
use rewofs.Messages.{Stat}
use rewofs.Content.{delete_file}
use rewofs.Tree.{below_root}
use rewofs.Tree.View.{view, strip, below}
use rewofs.Cache.View.{leaf}
use rewofs.Vfs.{Vfs, IdDispenser}
use rewofs.Vfs.Call.{Action, then_call_ok, ◌>>=◌}
use rewofs.CachedVfs.{
  State, mkdir, rmdir, unlink, symlink, create, made_directory, made_link, removed, created, on_sub,
}
use rewofs.CachedVfs.Handles.{file_of}
use rewofs.CachedVfs.Locked.{
  with_entry, around_entry, without_entry, made_directory_ok, made_link_ok, removed_ok, created_ok,
}
use rewofs.CachedVfs.Sub.{on_sub_ok}

module _ {P S : Type 0} ⦃paths : Paths P⦄ (sub : Vfs P (IdDispenser × S)) where
  open paths use {parent_path}

  -- What `mkdir` and `symlink` ask after their first call, which has left the state `shared`.
  abbrev pub Answers : P → IdDispenser × S → Stat → Stat → Type 0
  Answers path shared stat parent_st =
      let first = sub.getattr path shared in
      (first.0 ≡ ok stat) × ((sub.getattr (parent_path path) first.1).0 ≡ ok parent_st)

  abbrev ask_both :
      P → (Stat → Stat → Action (State P S) (Unit {0})) → Action (State P S) (Unit {0})
  ask_both path locked =
      on_sub (sub.getattr path) >>= λ x. on_sub (sub.getattr (parent_path path)) >>= λ y. locked x y

  ask_both_ok :
      (path : P) (locked : Stat → Stat → Action (State P S) (Unit {0})) (s s' : State P S)
      → ask_both path locked s ≡ (ok tt, s')
      → (stat : Stat) × (parent_st : Stat) × (s3 : State P S) × Answers path s.shared stat parent_st
        × (s3.opened_files ≡ s.opened_files)
        × (s3.cache ≡ s.cache)
        × (locked stat parent_st s3 ≡ (ok tt, s'))
  ask_both_ok path locked s s' e =
      let (stat, s2, e2, f2) =
        then_call_ok (on_sub (sub.getattr path) s)
          (λ x. on_sub (sub.getattr (parent_path path)) >>= λ y. locked x y) tt s' e in
      let (parent_st, s3, e3, f3) =
        then_call_ok (on_sub (sub.getattr (parent_path path)) s2) (λ y. locked stat y) tt s' f2 in
      let (r2, k2) = on_sub_ok (sub.getattr path) stat s s2 e2 in
      let (r3, k3) = on_sub_ok (sub.getattr (parent_path path)) parent_st s2 s3 e3 in
      let a : s2.shared ≡ (sub.getattr path s.shared).1 = ap (λ (z : State P S). z.shared) k2 in
      (stat, parent_st, s3, (r2, rw a at r3), cc, cc, f3)

  -- A `mkdir` that returns leaves one more entry in the cached tree, with the attributes that the
  -- other file system gives, those of the parent renewed, and all else as it was.
  pub view-mkdir :
      (path : P) (mode : ℕ) (s s' : State P S)
      → mkdir sub path mode s ≡ (ok tt, s')
      → (stat : Stat) × (parent_st : Stat) × Answers path
          (sub.mkdir path mode s.shared).1
          stat
          parent_st
        × (s'.opened_files ≡ s.opened_files)
        × (s'.cache.content ≡ s.cache.content)
        × ((q : List String)
            → view s'.cache.tree q ≡ with_entry path stat parent_st (view s.cache.tree) q)
  unfolding mkdir
  view-mkdir path mode s s' e =
      let (u, s1, e1, f1) =
        then_call_ok (on_sub (sub.mkdir path mode) s) (λ z. ask_both path (made_directory path)) tt
          s' e in
      let (r1, k1) = on_sub_ok (sub.mkdir path mode) u s s1 e1 in
      let (stat, parent_st, s3, answers, a, b, f3) =
        ask_both_ok path (made_directory path) s1 s' f1 in
      let (files, content, v) = made_directory_ok path stat parent_st s3 s' f3 in
      let c : s3.cache ≡ s.cache = b ∙ ap (λ (z : State P S). z.cache) k1 in
      (
        stat,
        parent_st,
        rw k1 at answers,
        files ∙ a ∙ ap (λ (z : State P S). z.opened_files) k1,
        rw c at content,
        rw c at v,
      )

  -- A `symlink` that returns leaves one more entry in the cached tree, with the attributes that the
  -- other file system gives, those of the parent renewed, and all else as it was.
  view-symlink :
      (target : String) (path : P) (s s' : State P S)
      → symlink sub target path s ≡ (ok tt, s')
      → (stat : Stat) × (parent_st : Stat) × Answers path
          (sub.symlink target path s.shared).1
          stat
          parent_st
        × (s'.opened_files ≡ s.opened_files)
        × (s'.cache.content ≡ s.cache.content)
        × ((q : List String)
            → view s'.cache.tree q ≡ around_entry path stat parent_st (view s.cache.tree) q)
  unfolding symlink
  view-symlink target path s s' e =
      let (u, s1, e1, f1) =
        then_call_ok (on_sub (sub.symlink target path) s) (λ z. ask_both path (made_link path)) tt
          s' e in
      let (r1, k1) = on_sub_ok (sub.symlink target path) u s s1 e1 in
      let (stat, parent_st, s3, answers, a, b, f3) = ask_both_ok path (made_link path) s1 s' f1 in
      let (files, content, v) = made_link_ok path stat parent_st s3 s' f3 in
      let c : s3.cache ≡ s.cache = b ∙ ap (λ (z : State P S). z.cache) k1 in
      (
        stat,
        parent_st,
        rw k1 at answers,
        files ∙ a ∙ ap (λ (z : State P S). z.opened_files) k1,
        rw c at content,
        rw c at v,
      )

  abbrev ask_parent : P → Action (State P S) (Unit {0})
  ask_parent path = on_sub (sub.getattr (parent_path path)) >>= removed path

  -- An `unlink` that returns leaves the cached tree without the entry and with the parent's new
  -- attributes, the cache without the content of the path, and all else as it was.
  pub view-unlink :
      (path : P) (s s' : State P S)
      → unlink sub path s ≡ (ok tt, s')
      → (parent_st : Stat) × ((sub.getattr (parent_path path) (sub.unlink path s.shared).1).0
          ≡ ok parent_st)
        × (s'.opened_files ≡ s.opened_files)
        × (s'.cache.content ≡ delete_file path s.cache.content)
        × ((q : List String)
            → view s'.cache.tree q ≡ without_entry path parent_st (view s.cache.tree) q)
  unfolding unlink
  view-unlink path s s' e =
      let (u, s1, e1, f1) =
        then_call_ok (on_sub (sub.unlink path) s) (λ z. ask_parent path) tt s' e in
      let (r1, k1) = on_sub_ok (sub.unlink path) u s s1 e1 in
      let (parent_st, s2, e2, f2) =
        then_call_ok (on_sub (sub.getattr (parent_path path)) s1) (removed path) tt s' f1 in
      let (r2, k2) = on_sub_ok (sub.getattr (parent_path path)) parent_st s1 s2 e2 in
      let (files, content, v) = removed_ok path parent_st s2 s' f2 in
      let a : s2.opened_files ≡ s.opened_files = cc in
      let b : s2.cache ≡ s.cache = cc in
      (parent_st, rw k1 at r2, files ∙ a, rw b at content, rw b at v)

  -- A `rmdir` that returns leaves the cached tree without the entry and with the parent's new
  -- attributes, the cache without the content of the path, and all else as it was.
  view-rmdir :
      (path : P) (s s' : State P S)
      → rmdir sub path s ≡ (ok tt, s')
      → (parent_st : Stat) × ((sub.getattr (parent_path path) (sub.rmdir path s.shared).1).0
          ≡ ok parent_st)
        × (s'.opened_files ≡ s.opened_files)
        × (s'.cache.content ≡ delete_file path s.cache.content)
        × ((q : List String)
            → view s'.cache.tree q ≡ without_entry path parent_st (view s.cache.tree) q)
  unfolding rmdir
  view-rmdir path s s' e =
      let (u, s1, e1, f1) =
        then_call_ok (on_sub (sub.rmdir path) s) (λ z. ask_parent path) tt s' e in
      let (r1, k1) = on_sub_ok (sub.rmdir path) u s s1 e1 in
      let (parent_st, s2, e2, f2) =
        then_call_ok (on_sub (sub.getattr (parent_path path)) s1) (removed path) tt s' f1 in
      let (r2, k2) = on_sub_ok (sub.getattr (parent_path path)) parent_st s1 s2 e2 in
      let (files, content, v) = removed_ok path parent_st s2 s' f2 in
      let a : s2.opened_files ≡ s.opened_files = cc in
      let b : s2.cache ≡ s.cache = cc in
      (parent_st, rw k1 at r2, files ∙ a, rw b at content, rw b at v)

  -- A `create` that returns leaves one more entry in the cached tree, with the attributes that the
  -- other file system gives, and every other path and the content as they were.
  view-create :
      (path : P) (flags mode fh : ℕ) (s s' : State P S)
      → create sub path flags mode s ≡ (ok fh, s')
      → (stat : Stat) × ((sub.getattr path (sub.create path flags mode s.shared).1).0 ≡ ok stat)
        × (s'.cache.content ≡ s.cache.content)
        × ((q : List String)
            → view s'.cache.tree q
              ≡ below (strip (below_root path) q) (leaf stat) (view s.cache.tree q))
  unfolding create
  view-create path flags mode fh s s' e =
      let (h, s1, e1, f1) =
        then_call_ok (on_sub (sub.create path flags mode) s)
          (λ h. on_sub (sub.getattr path) >>= created (file_of path flags (some h))) fh s' e in
      let (r1, k1) = on_sub_ok (sub.create path flags mode) h s s1 e1 in
      let (stat, s2, e2, f2) =
        then_call_ok (on_sub (sub.getattr path) s1) (created (file_of path flags (some h))) fh s'
          f1 in
      let (r2, k2) = on_sub_ok (sub.getattr path) stat s1 s2 e2 in
      let (content, v) = created_ok (file_of path flags (some h)) stat fh s2 s' f2 in
      let b : s2.cache ≡ s.cache = cc in (stat, rw k1 at r2, rw b at content, rw b at v)
