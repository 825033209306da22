-- ===== src/Worker.antt =====
-- The handlers of the server's `Worker`, src/rewofs/server/worker.hpp and worker.cpp, that answer the
-- commands of `RemoteVfs` on names and on opened files. The calls of POSIX are a parameter, over a state
-- of the kernel. Each handler runs alone here.
pub mod Inspect
pub mod ReadTree
pub mod Dispatch
pub mod Queue
pub mod Renameat2
pub mod Table
pub mod Sample
mod Tests
use rewofs.Base.{
  ℕ, ◌+◌, ◌-◌, ◌*◌, ◌%◌, ◌^◌, Bool, true, false, List, [], ◌∷◌, Option, none, some, String, length,
  ◌==◌, ℕ_discrete, if◌then◌else◌,
}
use rewofs.Base.Assoc.{find, put, erase}
use rewofs.Messages.{Stat, Timespec, no_time}
use rewofs.CachedVfs.{utime_omit}
use rewofs.Channel.{Command, ResultErrno, ResultRead, ResultWrite}
use rewofs.Channel

-- The value of a call, or -1 and the value of `errno`.
pub data Outcome : Type 0 where
  done : ℕ → Outcome
  failed : ℕ → Outcome

-- A descriptor is a number, or -1 for `none`. `map_path` is the name under the exported directory.
pub record Posix (P K : Type 0) : Type 0 where
  pub map_path : P → P
  pub mkdir : P → ℕ → K → Outcome × K
  pub rmdir : P → K → Outcome × K
  pub unlink : P → K → Outcome × K
  pub symlink : String → P → K → Outcome × K
  pub renameat2 : P → P → ℕ → K → Outcome × K
  pub chmod : P → ℕ → K → Outcome × K
  pub utimensat : P → Timespec → Timespec → K → Outcome × K
  pub truncate : P → ℕ → K → Outcome × K
  pub open_file : P → ℕ → Option ℕ → K → Outcome × K
  pub close : Option ℕ → K → Outcome × K
  pub lseek : Option ℕ → ℕ → K → Outcome × K
  pub read : Option ℕ → ℕ → K → (Outcome × List ℕ) × K
  pub write : Option ℕ → List ℕ → K → Outcome × K

-- `Worker::File`
pub record OpenFile (P : Type 0) : Type 0 where
  pub fd : ℕ
  pub path : P

-- `ignored` are the calls of `temporal_ignore`, the latest first.
pub record Worker (P K : Type 0) : Type 0 where
  pub opened_files : List (ℕ × OpenFile P)
  pub ignored : List P
  pub kernel : K

-- -1 as the bits of an `int32` and of an `int64`.
abbrev pub minus_one32 : ℕ
minus_one32 = 2 ^ 32 - 1

abbrev pub minus_one64 : ℕ
minus_one64 = 2 ^ 64 - 1

abbrev errno_of : Outcome → ResultErrno
errno_of (done n) = record { res_errno = 0 }
errno_of (failed e) = record { res_errno = e }

module _ {P K : Type 0} (posix : Posix P K) where
  abbrev temporal_ignore : P → Worker P K → Worker P K
  temporal_ignore path w = record w { ignored = path ∷ w.ignored }

  abbrev finish : Outcome × K → Worker P K → Option ResultErrno × Worker P K
  finish r w = (some (errno_of r.0), record w { kernel = r.1 })

  abbrev pub file_descriptor : ℕ → Worker P K → Option ℕ
  file_descriptor fh w = elim (find ℕ_discrete fh w.opened_files) [
    | none ↦ none
    | some f ↦ some f.fd
  ]

  -- The path of an opened file is ignored for a while; without one nothing is.
  abbrev ignore_file : ℕ → Worker P K → Worker P K
  ignore_file fh w = elim (find ℕ_discrete fh w.opened_files) [
    | none ↦ w
    | some f ↦ temporal_ignore f.path w
  ]

  unfoldable pub process_open : P → ℕ → ℕ → Option ℕ → Worker P K → ResultErrno × Worker P K
  unfolding put
  process_open path fh flags mode w =
      let r = posix.open_file (posix.map_path path) flags mode w.kernel in
      let w1 = record (temporal_ignore path w) { kernel = r.1 } in
      elim r.0 [
        | failed e ↦ (errno_of (failed e), w1)
        | done fd ↦ (
          errno_of (done fd),
          record w1 {
            opened_files = put ℕ_discrete fh (record { fd = fd; path = path }) w.opened_files;
          },
        )
      ]

  -- `flguard.unlock()` throws `std::system_error` where the handle is not in the table, since the guard
  -- has no mutex then: there is no answer.
  unfoldable pub process_close : ℕ → Worker P K → Option ResultErrno × Worker P K
  unfolding find erase
  process_close fh w =
      let fd = file_descriptor fh w in
      let r = posix.close fd w.kernel in
      let w1 = record (ignore_file fh w) { kernel = r.1 } in
      elim fd [
        | none ↦ (none, w1)
        | some n ↦ elim r.0 [
          | failed e ↦ (some (errno_of (failed e)), w1)
          | done m ↦ (
            some (errno_of (done m)),
            record w1 { opened_files = erase ℕ_discrete fh w.opened_files },
          )
        ]
      ]

  -- The handlers that answer with an errno alone; `none` where one throws, and for a command that has
  -- another answer.
  unfoldable pub process_errno : Command P → Worker P K → Option ResultErrno × Worker P K
  unfolding process_open process_close
  process_errno (Command.mkdir path mode) w =
      finish (posix.mkdir (posix.map_path path) mode w.kernel) (temporal_ignore path w)
  process_errno (Command.rmdir path) w =
      finish (posix.rmdir (posix.map_path path) w.kernel) (temporal_ignore path w)
  process_errno (Command.unlink path) w =
      finish (posix.unlink (posix.map_path path) w.kernel) (temporal_ignore path w)
  process_errno (Command.symlink link_path target) w =
      finish (posix.symlink target (posix.map_path link_path) w.kernel)
        (temporal_ignore link_path w)
  process_errno (Command.rename old_path new_path flags) w =
      finish (posix.renameat2 (posix.map_path old_path) (posix.map_path new_path) flags w.kernel)
        (temporal_ignore new_path (temporal_ignore old_path w))
  process_errno (Command.chmod path mode) w =
      finish (posix.chmod (posix.map_path path) mode w.kernel) (temporal_ignore path w)
  process_errno (Command.utime path mtime) w =
      finish
        (posix.utimensat (posix.map_path path) (record no_time { tv_nsec = utime_omit }) mtime
          w.kernel)
        (temporal_ignore path w)
  process_errno (Command.truncate path len) w =
      finish (posix.truncate (posix.map_path path) len w.kernel) (temporal_ignore path w)
  process_errno (Command.open_file path fh flags mode) w =
      let r = process_open path fh flags mode w in (some r.0, r.1)
  process_errno (Command.close fh) w = process_close fh w
  process_errno _ w = (none, w)

  -- Both handlers below throw, after the call, where the handle is not in the table and the test on
  -- `lseek` has passed. `static_cast<int>(new_ofs)`, which they put where `errno` belongs.
  abbrev pub seek_errno : Outcome → ℕ
  seek_errno (done ofs) = ofs % 2 ^ 32
  seek_errno (failed e) = minus_one32

  -- `new_ofs == static_cast<off_t>(offset)`, by the bits: the -1 of a failed `lseek` is equal to the
  -- offset 2^64 - 1, and a handler goes on as if it had not failed.
  abbrev pub seek_ok : ℕ → Outcome → Bool
  seek_ok offset (done ofs) = ofs == offset
  seek_ok offset (failed e) = minus_one64 == offset

  abbrev read_result : Outcome → List ℕ → ResultRead
  read_result (done n) bytes = record { res = n; res_errno = 0; bytes = bytes }
  read_result (failed e) bytes = record { res = minus_one64; res_errno = e; bytes = [] }

  unfoldable pub process_read : ℕ → ℕ → ℕ → Worker P K → Option ResultRead × Worker P K
  unfolding find
  process_read fh offset size w =
      let fd = file_descriptor fh w in
      let sought = posix.lseek fd offset w.kernel in
      let r = posix.read fd size sought.1 in
      if seek_ok offset sought.0
      then (
        elim fd [ none ↦ none | some n ↦ some (read_result r.0.0 r.0.1) ],
        record w { kernel = r.1 },
      )
      else (
        some (record { res = minus_one64; res_errno = seek_errno sought.0; bytes = [] }),
        record w { kernel = sought.1 },
      )

  abbrev write_result : Outcome → ResultWrite
  write_result (done n) = record { res = n; res_errno = 0 }
  write_result (failed e) = record { res = minus_one64; res_errno = e }

  unfoldable pub process_write : ℕ → ℕ → List ℕ → Worker P K → Option ResultWrite × Worker P K
  unfolding find
  process_write fh offset bytes w =
      let fd = file_descriptor fh w in
      let sought = posix.lseek fd offset w.kernel in
      let r = posix.write fd bytes sought.1 in
      if seek_ok offset sought.0
      then (
        elim fd [ none ↦ none | some n ↦ some (write_result r.0) ],
        record (ignore_file fh w) { kernel = r.1 },
      )
      else (
        some (record { res = minus_one64; res_errno = seek_errno sought.0 }),
        record (ignore_file fh w) { kernel = sought.1 },
      )
