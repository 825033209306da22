-- ===== src/Fuse.antt =====
-- The callbacks of src/rewofs/client/fuse.cpp, over any `IVfs`, the global `g_vfs`. A callback answers
-- with an `int`, held as its 32 bits. The loop of FUSE, the mount and the signals are the library's.
pub mod Requests
pub mod Refusals
pub mod Stack
pub mod Names
pub mod Valid
pub mod Readlink
mod Tests
use rewofs.Base.{
  bytes_of, ℕ, zero, suc, ◌+◌, ◌-◌, ◌%◌, ◌^◌, min, Bool, List, [], ◌∷◌, map, String, length, take,
  ltb, if◌then◌else◌,
}
use rewofs.Base.Result.{
  Result, ok, raise, Exception, system_error, runtime_error, undefined, eio, einval,
}
use rewofs.Messages.{Stat, Timespec}
use rewofs.Content.{copy_at}
use rewofs.Vfs.{Vfs}
use rewofs.Vfs.Call.{Action, ◌>>=◌, ◌>>◌, return, throw}
use rewofs.RemoteVfs.{is_negative}
use rewofs.CachedVfs.{has_bit}

-- What the callbacks use of `struct fuse_file_info`.
pub record FileInfo : Type 0 where
  pub flags : ℕ
  pub fh : ℕ

-- `-n` of an `int`
abbrev pub negated : ℕ → ℕ
negated n = (2 ^ 32 - n % 2 ^ 32) % 2 ^ 32

-- Behaviour that is not defined is not an exception, and stays what it is.
unfoldable pub gen_return_error_code : Exception → Result ℕ
gen_return_error_code (system_error e) = ok (negated e)
gen_return_error_code runtime_error = ok (negated eio)
gen_return_error_code undefined = raise undefined

abbrev pub answer : {S : Type 0} → Result ℕ × S → Result ℕ × S
answer (ok n, s) = (ok n, s)
answer (raise e, s) = (gen_return_error_code e, s)

-- `try { ... } catch (...) { return gen_return_error_code(); }`
abbrev pub guarded : {S : Type 0} → Action S ℕ → Action S ℕ
guarded call s = answer (call s)

-- The same where the body writes through a pointer; what was there before stays if it throws.
abbrev pub answer_with : {S A : Type 0} → A → Result (ℕ × A) × S → Result (ℕ × A) × S
answer_with before (ok r, s) = (ok r, s)
answer_with before (raise e, s) =
    (elim (gen_return_error_code e) [ ok n ↦ ok (n, before) | raise x ↦ raise x ], s)

abbrev pub guarded_with : {S A : Type 0} → A → Action S (ℕ × A) → Action S (ℕ × A)
guarded_with before call s = answer_with before (call s)

-- `dst[i] = value`, which is not defined behind the end of the buffer.
unfoldable pub assign : ℕ → ℕ → List ℕ → Result (List ℕ)
unfolding copy_at
assign i value dst = if ltb i (length dst) then ok (copy_at (value ∷ []) i dst) else raise undefined

-- `std::copy` of at most `sz` bytes, and a 0 behind them.
unfoldable pub with_target : String → List ℕ → ℕ → Result (ℕ × List ℕ)
unfolding assign copy_at
with_target link_path dst sz =
    let len = min sz (length (bytes_of link_path)) in
    elim (assign len 0 (copy_at (take len (bytes_of link_path)) 0 dst)) [
      | ok d ↦ ok (0, d)
      | raise e ↦ raise e
    ]

-- `flags | (1 << bit)`
abbrev pub with_bit : ℕ → ℕ → ℕ
with_bit bit flags = if has_bit bit flags then flags else flags + 2 ^ bit

-- S_IFDIR is 0040000.
abbrev pub s_ifdir_bit : ℕ
s_ifdir_bit = 14

abbrev pub to_int : ℕ → ℕ
to_int n = n % 2 ^ 32

module _ {P S : Type 0} (g_vfs : Vfs P S) where
  unfoldable pub getattr : P → Stat → Action S (ℕ × Stat)
  unfolding gen_return_error_code
  getattr path stbuf = guarded_with stbuf (g_vfs.getattr path >>= λ st. return (0, st))

  -- The entries that the filler is called with, in order.
  unfoldable pub readdir : P → Action S (ℕ × List (String × Stat))
  unfolding gen_return_error_code
  readdir path = guarded_with [] (g_vfs.readdir path >>= λ items. return (0, items))

  unfoldable pub readlink : P → List ℕ → ℕ → Action S (ℕ × List ℕ)
  unfolding gen_return_error_code with_target
  readlink path dst sz =
      guarded_with dst (g_vfs.readlink path >>= λ link_path s. (with_target link_path dst sz, s))

  unfoldable pub mkdir : P → ℕ → Action S ℕ
  unfolding gen_return_error_code
  mkdir path mode = guarded (g_vfs.mkdir path (with_bit s_ifdir_bit mode) >> return 0)

  unfoldable pub rmdir : P → Action S ℕ
  unfolding gen_return_error_code
  rmdir path = guarded (g_vfs.rmdir path >> return 0)

  unfoldable pub unlink : P → Action S ℕ
  unfolding gen_return_error_code
  unlink path = guarded (g_vfs.unlink path >> return 0)

  unfoldable pub symlink : String → P → Action S ℕ
  unfolding gen_return_error_code
  symlink target link_path = guarded (g_vfs.symlink target link_path >> return 0)

  unfoldable pub rename : P → P → ℕ → Action S ℕ
  unfolding gen_return_error_code
  rename old_path new_path flags = guarded (g_vfs.rename old_path new_path flags >> return 0)

  unfoldable pub chmod : P → ℕ → Action S ℕ
  unfolding gen_return_error_code
  chmod path mode = guarded (g_vfs.chmod path mode >> return 0)

  unfoldable pub utimens : P → Timespec → Timespec → Action S ℕ
  unfolding gen_return_error_code
  utimens path atime mtime = guarded (g_vfs.utimens path atime mtime >> return 0)

  unfoldable pub truncate : P → ℕ → Action S ℕ
  unfolding gen_return_error_code
  truncate path len =
      guarded (
        if is_negative len
        then throw (system_error einval)
        else g_vfs.truncate path len >> return 0)

  -- `fi->fh = ...`
  abbrev pub handed : FileInfo → Action S ℕ → Action S (ℕ × FileInfo)
  handed fi call = guarded_with fi (call >>= λ fh. return (0, record fi { fh = fh }))

  unfoldable pub create : P → ℕ → FileInfo → Action S (ℕ × FileInfo)
  unfolding gen_return_error_code
  create path mode fi = handed fi (g_vfs.create path fi.flags mode)

  unfoldable pub open_file : P → FileInfo → Action S (ℕ × FileInfo)
  unfolding gen_return_error_code
  open_file path fi = handed fi (g_vfs.open_file path fi.flags)

  unfoldable pub release : FileInfo → Action S ℕ
  unfolding gen_return_error_code
  release fi = guarded (g_vfs.close fi.fh >> return 0)

  -- After a refused read FUSE does not look at the buffer, of which a part may have been written.
  unfoldable pub read : List ℕ → ℕ → FileInfo → Action S (ℕ × List ℕ)
  unfolding gen_return_error_code
  read output offset fi =
      guarded_with output (g_vfs.read fi.fh output offset >>= λ r. return (to_int r.0, r.1))

  unfoldable pub write : List ℕ → ℕ → FileInfo → Action S ℕ
  unfolding gen_return_error_code
  write input offset fi = guarded (g_vfs.write fi.fh input offset >>= λ n. return (to_int n))
