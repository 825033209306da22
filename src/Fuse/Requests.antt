-- ===== src/Fuse/Requests.antt =====
-- The requests of FUSE as values, for statements on any of them and on sequences of them.
use rewofs.Base.{ℕ, ◌+◌, ◌<◌, ◌^◌, List, [], ◌∷◌, String, length}
use rewofs.Messages.{Timespec, no_stat}
use rewofs.Vfs.{Vfs}
use rewofs.Vfs.Call.{Action, ◌>>=◌, return}
use rewofs.Fuse.{FileInfo}
use rewofs.Fuse

pub data Request (P : Type 0) : Type 0 where
  getattr : P → Request P
  readdir : P → Request P
  readlink : P → List ℕ → ℕ → Request P
  mkdir : P → ℕ → Request P
  rmdir : P → Request P
  unlink : P → Request P
  symlink : String → P → Request P
  rename : P → P → ℕ → Request P
  chmod : P → ℕ → Request P
  utimens : P → Timespec → Timespec → Request P
  truncate : P → ℕ → Request P
  create : P → ℕ → FileInfo → Request P
  open_file : P → FileInfo → Request P
  release : FileInfo → Request P
  read : List ℕ → ℕ → FileInfo → Request P
  write : List ℕ → ℕ → FileInfo → Request P

-- The answer without what is written through pointers.
abbrev pub code_only : {S A : Type 0} → Action S (ℕ × A) → Action S ℕ
code_only call = call >>= λ r. return r.0

-- The table `g_oper`.
unfoldable pub serve : {P S : Type 0} → Vfs P S → Request P → Action S ℕ
unfolding Fuse.getattr Fuse.readdir Fuse.readlink Fuse.mkdir Fuse.rmdir Fuse.unlink Fuse.symlink
    Fuse.rename Fuse.chmod Fuse.utimens Fuse.truncate Fuse.create Fuse.open_file Fuse.release
    Fuse.read Fuse.write
serve vfs (Request.getattr path) = code_only (Fuse.getattr vfs path no_stat)
serve vfs (Request.readdir path) = code_only (Fuse.readdir vfs path)
serve vfs (Request.readlink path dst sz) = code_only (Fuse.readlink vfs path dst sz)
serve vfs (Request.mkdir path mode) = Fuse.mkdir vfs path mode
serve vfs (Request.rmdir path) = Fuse.rmdir vfs path
serve vfs (Request.unlink path) = Fuse.unlink vfs path
serve vfs (Request.symlink target link_path) = Fuse.symlink vfs target link_path
serve vfs (Request.rename old_path new_path flags) = Fuse.rename vfs old_path new_path flags
serve vfs (Request.chmod path mode) = Fuse.chmod vfs path mode
serve vfs (Request.utimens path atime mtime) = Fuse.utimens vfs path atime mtime
serve vfs (Request.truncate path len) = Fuse.truncate vfs path len
serve vfs (Request.create path mode fi) = code_only (Fuse.create vfs path mode fi)
serve vfs (Request.open_file path fi) = code_only (Fuse.open_file vfs path fi)
serve vfs (Request.release fi) = Fuse.release vfs fi
serve vfs (Request.read output offset fi) = code_only (Fuse.read vfs output offset fi)
serve vfs (Request.write input offset fi) = Fuse.write vfs input offset fi

-- A sequence of requests; the answers to the earlier ones do not change the later ones.
unfoldable pub serve_all : {P S : Type 0} → Vfs P S → List (Request P) → S → S
unfolding serve
serve_all vfs [] s = s
serve_all vfs (r ∷ rs) s = serve_all vfs rs (serve vfs r s).1

-- The range of a read or a write ends below 2 ^ 64.
abbrev pub InRange : {P : Type 0} → Request P → Type 0
InRange (Request.read output offset fi) = offset + length output < 2 ^ 64
InRange (Request.write input offset fi) = offset + length input < 2 ^ 64
InRange _ = Unit

abbrev pub AllInRange : {P : Type 0} → List (Request P) → Type 0
AllInRange [] = Unit
AllInRange (r ∷ rs) = InRange r × AllInRange rs
