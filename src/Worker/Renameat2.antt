-- ===== src/Worker/Renameat2.antt =====
-- The replacement of `renameat2` for an old glibc, in src/rewofs/server/worker.cpp.
mod Tests
use rewofs.Base.{
  ℕ, ◌≢◌, sym, ap, ◌∙◌, Bool, false, List, [], ◌∷◌, Option, none, ite, if_pos, if_neg,
  if◌then◌else◌, ◌==◌, arith, Option-cases, inl, inr,
}
use rewofs.Base.Result.{eexist}
use rewofs.Channel.{ResultErrno}
use rewofs.CachedVfs.{has_bit}
use rewofs.Worker.{Posix, Outcome, done, failed, Worker}

-- `renameat`, `fs::exists` on a path whose status can be read, and the path with ".498560w354df7w" behind.
pub record Renames (P K : Type 0) : Type 0 where
  pub renameat : P → P → K → Outcome × K
  pub exists : P → K → Bool × K
  pub tmp_of : P → P

-- `if (res != 0) { return res; }`
abbrev pub and_then : {K : Type 0} → Outcome × K → (K → Outcome × K) → Outcome × K
and_then (failed e, k) rest = (failed e, k)
and_then (done n, k) rest = if n == 0 then rest k else (done n, k)

module _ {P K : Type 0} (renames : Renames P K) where
  open renames use {renameat, exists, tmp_of}

  -- EEXIST is returned as it is, and not by `errno`.
  unfoldable pub renameat2 : P → P → ℕ → K → Outcome × K
  renameat2 oldpath newpath flags k =
      if has_bit 1 flags
      then and_then (renameat oldpath (tmp_of oldpath) k) (λ k1.
        and_then (renameat newpath oldpath k1)
          (λ k2. and_then (renameat (tmp_of oldpath) newpath k2) (λ k3. (done 0, k3))))
      else (if has_bit 0 flags
          then (let there = exists newpath k in
              if there.0 then (done eexist, there.1) else renameat oldpath newpath there.1)
          else renameat oldpath newpath k)

  -- The server on such a system.
  abbrev pub old_glibc : Posix P K → Posix P K
  old_glibc posix = record posix { renameat2 = renameat2 }
