-- ===== src/CachedVfs/Operations.antt =====
-- The operations of `IVfs` as values, for statements on any of them and on sequences of them.
use rewofs.Base.{ℕ, ◌+◌, ◌<◌, ◌^◌, ◌≡◌, ◌==◌, true, false, List, [], ◌∷◌, String, length}
use rewofs.CachedVfs.{utime_omit, wants_write}
use rewofs.Messages.{Timespec}
use rewofs.Vfs.{Vfs}
use rewofs.Vfs.Call.{Action, ◌>>=◌, return}

-- The operations that change the file system, with their arguments.
pub data Operation (P : Type 0) : Type 0 where
  mkdir : P → ℕ → Operation P
  rmdir : P → Operation P
  unlink : P → Operation P
  symlink : String → P → Operation P
  rename : P → P → ℕ → Operation P
  chmod : P → ℕ → Operation P
  utimens : P → Timespec → Timespec → Operation P
  truncate : P → ℕ → Operation P
  create : P → ℕ → ℕ → Operation P
  open_file : P → ℕ → Operation P
  close : ℕ → Operation P
  read : ℕ → List ℕ → ℕ → Operation P
  write : ℕ → List ℕ → ℕ → Operation P

abbrev discard : {S A : Type 0} → Action S A → Action S (Unit {0})
discard call = call >>= λ a. return tt

unfoldable pub run : {P S : Type 0} → Vfs P S → Operation P → Action S (Unit {0})
run vfs (mkdir path mode) = vfs.mkdir path mode
run vfs (rmdir path) = vfs.rmdir path
run vfs (unlink path) = vfs.unlink path
run vfs (symlink target path) = vfs.symlink target path
run vfs (rename old_path new_path flags) = vfs.rename old_path new_path flags
run vfs (chmod path mode) = vfs.chmod path mode
run vfs (utimens path atime mtime) = vfs.utimens path atime mtime
run vfs (truncate path len) = vfs.truncate path len
run vfs (create path flags mode) = discard (vfs.create path flags mode)
run vfs (open_file path flags) = discard (vfs.open_file path flags)
run vfs (close fh) = vfs.close fh
run vfs (read fh output offset) = discard (vfs.read fh output offset)
run vfs (write fh input offset) = discard (vfs.write fh input offset)

-- A sequence of calls; what one throws does not stop the next.
unfoldable pub run_all : {P S : Type 0} → Vfs P S → List (Operation P) → S → S
unfolding run
run_all vfs [] s = s
run_all vfs (op ∷ ops) s = run_all vfs ops (run vfs op s).1

-- The range of a read or a write ends below 2 ^ 64.
abbrev pub InRange : {P : Type 0} → Operation P → Type 0
InRange (read fh output offset) = offset + length output < 2 ^ 64
InRange (write fh input offset) = offset + length input < 2 ^ 64
InRange _ = Unit

abbrev pub AllInRange : {P : Type 0} → List (Operation P) → Type 0
AllInRange [] = Unit
AllInRange (op ∷ ops) = InRange op × AllInRange ops

-- An operation whose first call of the other file system is the same operation: not one on a handle,
-- an `open` only where it is not lazy, and a `utimens` only where it does not leave the time alone.
abbrev pub IsForwarded : {P : Type 0} → Operation P → Type 0
IsForwarded (utimens path atime mtime) = (mtime.tv_nsec == utime_omit) ≡ false
IsForwarded (open_file path flags) = wants_write flags ≡ true
IsForwarded (close fh) = ⊥
IsForwarded (read fh output offset) = ⊥
IsForwarded (write fh input offset) = ⊥
IsForwarded _ = Unit
