-- ===== src/Vfs.antt =====
-- The interface `IVfs` of src/rewofs/client/vfs.hpp, over any state. Its implementations are
-- `RemoteVfs` and `CachedVfs`; the second takes the first as a parameter.
pub mod Call
use rewofs.Base.{ℕ, ◌+◌, ◌%◌, ◌^◌, List, String}
use rewofs.Messages.{Stat, Timespec}
use rewofs.Vfs.Call.{Action}

-- Handles are the numbers of `FileHandle`. `readdir` gives the calls of the filler, in order. `read`
-- takes the buffer `output` as it is before, and gives the count and the buffer after; `off_t` and
-- `int` are bit patterns.
pub record Vfs (P S : Type 0) : Type 0 where
  pub getattr : P → Action S Stat
  pub readdir : P → Action S (List (String × Stat))
  pub readlink : P → Action S String
  pub mkdir : P → ℕ → Action S (Unit {0})
  pub rmdir : P → Action S (Unit {0})
  pub unlink : P → Action S (Unit {0})
  pub symlink : String → P → Action S (Unit {0})
  pub rename : P → P → ℕ → Action S (Unit {0})
  pub chmod : P → ℕ → Action S (Unit {0})
  pub utimens : P → Timespec → Timespec → Action S (Unit {0})
  pub truncate : P → ℕ → Action S (Unit {0})
  pub create : P → ℕ → ℕ → Action S ℕ
  pub open_file : P → ℕ → Action S ℕ
  pub close : ℕ → Action S (Unit {0})
  pub read : ℕ → List ℕ → ℕ → Action S (ℕ × List ℕ)
  pub write : ℕ → List ℕ → ℕ → Action S ℕ

-- `IdDispenser`: its counter is an `std::atomic<uint64_t>`.
abbrev pub IdDispenser : Type 0
IdDispenser = ℕ

-- `m_dispenser++`, with the new counter.
unfoldable pub get_id : IdDispenser → ℕ × IdDispenser
get_id dispenser = (dispenser, (dispenser + 1) % 2 ^ 64)
