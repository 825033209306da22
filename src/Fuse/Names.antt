-- ===== src/Fuse/Names.antt =====
-- What FUSE answers about a name after a request that made or removed it, over `CachedVfs`.
use rewofs.Base.{
  ℕ, ◌<◌, ◌^◌, ◌≡◌, refl, ◌∙◌, List, [], ◌∷◌, String, Option, none, some, false, eq_refl, arith,
  inl, inr, Option-cases,
}
use rewofs.Base.Paths.{Paths}
use rewofs.Base.Result.{Result, ok, raise, system_error, runtime_error, undefined, enoent}
use rewofs.Messages.{Stat}
use rewofs.Tree.{Node, below_root, find_node, st}
use rewofs.Tree
use rewofs.Tree.View.{view, strip, below}
use rewofs.Cache
use rewofs.Vfs.Call.{then_call, return}
use rewofs.Tree.Entries.{below_root_split, strip-append_self}
use rewofs.Vfs.{Vfs, IdDispenser}
use rewofs.CachedVfs.{State, cached_vfs}
use rewofs.CachedVfs
use rewofs.CachedVfs.Namespace.{view-mkdir, view-unlink}
use rewofs.Fuse.{answer, gen_return_error_code, negated, with_bit, s_ifdir_bit}
use rewofs.Fuse

-- `getattr` with a buffer, in a tree that is viewed as a partial function.
abbrev stat_answer : Option Stat → Stat → Result (ℕ × Stat)
stat_answer (some stat) stbuf = ok (0, stat)
stat_answer none stbuf = ok (negated enoent, stbuf)

strip_self : (p : List String) → strip p p ≡ some []
strip_self [] = refl
strip_self (x ∷ p) = rw (eq_refl x, strip_self p)

-- `assert(err.code().value() > 0)`, for what a call may throw.
abbrev AssertHolds : {S A : Type 0} → Result A × S → Type 0
AssertHolds r = (e : ℕ) → r.0 ≡ raise (system_error e) → (0 < e) × (e < 2 ^ 32)

-- An answer of 0 is that of a call that has returned.
answered_0 :
    {S : Type 0} (r : Result (Unit {0}) × S) (s : S)
    → AssertHolds r
    → answer (then_call r (λ u. return 0)) ≡ (ok 0, s)
    → r ≡ (ok tt, s)
unfolding gen_return_error_code
answered_0 (ok u, s') s h e = cc
answered_0 (raise (system_error n), s') s h e = absurd (ground (arith, h n refl))
answered_0 (raise runtime_error, s') s h e = absurd (cc)
answered_0 (raise undefined, s') s h e = absurd (cc)

module _ {P S : Type 0} ⦃paths : Paths P⦄ (sub : Vfs P (IdDispenser × S)) where
  open paths use {is_root, parent_path, filename}

  getattr-view :
      (path : P) (stbuf : Stat) (s : State P S)
      → Fuse.getattr (cached_vfs sub) path stbuf s
        ≡ (stat_answer (view s.cache.tree (below_root path)) stbuf, s)
  unfolding Fuse.getattr CachedVfs.getattr Cache.get_node Tree.get_node view
  getattr-view path stbuf s = elim (Option-cases (find_node (below_root path) s.cache.tree)) [
    | inl e ↦ rw e
    | inr (n, e) ↦ rw e
  ]

  -- After a `mkdir` that FUSE has answered with 0, a `getattr` of the path is answered with 0 and with the
  -- attributes that the other file system had after the `mkdir`, and changes nothing.
  pub getattr-mkdir :
      (path : P) (mode : ℕ) (stbuf : Stat) (s s' : State P S)
      → AssertHolds (CachedVfs.mkdir sub path (with_bit s_ifdir_bit mode) s)
      → Fuse.mkdir (cached_vfs sub) path mode s ≡ (ok 0, s')
      → (stat : Stat) × ((sub.getattr path
            (sub.mkdir path (with_bit s_ifdir_bit mode) s.shared).1).0
          ≡ ok stat)
        × (Fuse.getattr (cached_vfs sub) path stbuf s' ≡ (ok (0, stat), s'))
  unfolding Fuse.mkdir
  getattr-mkdir path mode stbuf s s' h e =
      let made = with_bit s_ifdir_bit mode in
      let (stat, parent_st, answers, files, content, v) =
        view-mkdir sub path made s s' (answered_0 (CachedVfs.mkdir sub path made s) s' h e) in
      (
        stat,
        answers.0,
        getattr-view path stbuf s' ∙ rw (v (below_root path), strip_self (below_root path)),
      )

  -- After an `unlink` of anything but the root that FUSE has answered with 0, a `getattr` of the path is
  -- answered with -ENOENT, with the buffer as it was, and changes nothing.
  pub getattr-unlink :
      (path : P) (stbuf : Stat) (s s' : State P S)
      → is_root path ≡ false
      → AssertHolds (CachedVfs.unlink sub path s)
      → Fuse.unlink (cached_vfs sub) path s ≡ (ok 0, s')
      → Fuse.getattr (cached_vfs sub) path stbuf s' ≡ (ok (negated enoent, stbuf), s')
  unfolding Fuse.unlink
  getattr-unlink path stbuf s s' below h e =
      let (parent_st, r, files, content, v) =
        view-unlink sub path s s' (answered_0 (CachedVfs.unlink sub path s) s' h e) in
      getattr-view path stbuf s'
      ∙ rw (
        v (below_root path),
        strip_self (below_root path),
        below_root_split path below,
        strip-append_self (below_root (parent_path path)) (filename path ∷ []),
      )
