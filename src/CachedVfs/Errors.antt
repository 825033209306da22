-- ===== src/CachedVfs/Errors.antt =====
-- Errors of the other file system.
use rewofs.Base.{◌≡◌, arith}
use rewofs.Base.Paths.{Paths}
use rewofs.Base.Result.{raise, Exception}
use rewofs.Vfs.{Vfs, IdDispenser}
use rewofs.CachedVfs.{
  State, cached_vfs, mkdir, rmdir, unlink, symlink, rename, chmod, truncate, create, utimens,
  open_file,
}
use rewofs.CachedVfs.Operations.{Operation, run, IsForwarded}

module _ {P S : Type 0} ⦃paths : Paths P⦄ (sub : Vfs P (IdDispenser × S)) where
  -- What the other file system throws of a forwarded operation is thrown on, and the cache and the
  -- table of opened files stay as they are.
  pub run-raise :
      (op : Operation P) (s : State P S) (e : Exception)
      → IsForwarded op
      → (run sub op s.shared).0 ≡ raise e
      → run (cached_vfs sub) op s ≡ (raise e, record s { shared = (run sub op s.shared).1 })
  unfolding run mkdir rmdir unlink symlink rename chmod truncate create utimens open_file
  run-raise (Operation.mkdir path mode) s e f h = rw h
  run-raise (Operation.rmdir path) s e f h = rw h
  run-raise (Operation.unlink path) s e f h = rw h
  run-raise (Operation.symlink target path) s e f h = rw h
  run-raise (Operation.rename old_path new_path flags) s e f h = rw h
  run-raise (Operation.chmod path mode) s e f h = rw h
  run-raise (Operation.truncate path len) s e f h = rw h
  run-raise (Operation.create path flags mode) s e f h = ground arith
  run-raise (Operation.utimens path atime mtime) s e f h = rw (f, utimens) (rw h)
  run-raise (Operation.open_file path flags) s e f h = rw (f, open_file) (ground arith)
  run-raise (Operation.close fh) s e f h = absurd f
  run-raise (Operation.read fh output offset) s e f h = absurd f
  run-raise (Operation.write fh input offset) s e f h = absurd f
