-- ===== src/Worker/Inspect.antt =====
-- The handlers of `Worker` that only look: of src/rewofs/server/worker.cpp, `process_stat`,
-- `process_readdir`, `process_readlink`, `process_preread`, `process_read_tree` and
-- `build_fs_fbb_tree`. What they call of POSIX and of `boost::filesystem` is a parameter.
use rewofs.Base.{
  ℕ, zero, suc, Bool, true, false, List, [], ◌∷◌, Option, none, some, String, if◌then◌else◌,
}
use rewofs.Base.Result.{Result, ok, raise, Exception, system_error, runtime_error, undefined, eio}
use rewofs.Messages.{Stat, no_stat}
use rewofs.Vfs.Call.{Action}
use rewofs.Channel.{ResultPreread, ResultStat, ResultReaddir, ResultReadlink}
use rewofs.BackgroundLoader.{ResultReadTree, TreeNode, TreeNodes, tree_node, nil, cons}
use rewofs.Worker.{Posix, Outcome, done, failed, minus_one64, seek_ok}

-- A call of POSIX that fails is `raise (system_error errno)`; so is a `filesystem_error`, with its code, and
-- any other exception is `runtime_error`. `directory` is the walk of a `directory_iterator`: the names it
-- has given, and what it has thrown. `name_path` is a bare name as a path, `join` the path of a child.
pub record Files (P K : Type 0) : Type 0 where
  pub lstat : P → Action K Stat
  pub is_symlink : P → Action K Bool
  pub is_directory : P → Action K Bool
  pub directory : P → K → (List String × Option Exception) × K
  pub read_symlink : P → Action K String
  pub filename : P → String
  pub name_path : String → P
  pub join : P → String → P
  -- `errno` where no call has just failed
  pub last_errno : K → ℕ

-- `catch (const fs::filesystem_error& exc)`, and EIO for any other exception.
abbrev code_of : Exception → ℕ
code_of (system_error e) = e
code_of runtime_error = eio
code_of undefined = eio

abbrev stat_result : Result Stat → ResultStat
stat_result (ok st) = record { res_errno = 0; st = st }
stat_result (raise e) = record { res_errno = code_of e; st = no_stat }

abbrev readlink_result : Result String → ResultReadlink
readlink_result (ok path) = record { res_errno = 0; path = path }
readlink_result (raise e) = record { res_errno = code_of e; path = "" }

abbrev pub stat_or_null : Result Stat → Option Stat
stat_or_null (ok st) = some st
stat_or_null (raise e) = none

abbrev stat_or_zero : Result Stat → Stat
stat_or_zero (ok st) = st
stat_or_zero (raise e) = no_stat

module _ {P K : Type 0} (posix : Posix P K) (files : Files P K) where
  open posix use {map_path}

  unfoldable pub process_stat : P → K → ResultStat × K
  process_stat path k = let r = files.lstat (map_path path) k in (stat_result r.0, r.1)

  -- The loop over the entries. The attributes are asked for under the bare name.
  unfoldable pub read_entries : List String → K → List (String × Option Stat) × K
  read_entries [] k = ([], k)
  read_entries (x ∷ xs) k =
      let r = files.lstat (files.name_path x) k in
      let rest = read_entries xs r.1 in ((x, stat_or_null r.0) ∷ rest.0, rest.1)

  abbrev entries_result : Option Exception → List (String × Option Stat) → ResultReaddir
  entries_result none items = record { res_errno = 0; items = items }
  entries_result (some e) items = record { res_errno = code_of e; items = [] }

  unfoldable pub process_readdir : P → K → ResultReaddir × K
  unfolding read_entries
  process_readdir path k =
      let walk = files.directory (map_path path) k in
      let items = read_entries walk.0.0 walk.1 in (entries_result walk.0.1 items.0, items.1)

  unfoldable pub process_readlink : P → K → ResultReadlink × K
  process_readlink path k =
      let r = files.read_symlink (map_path path) k in (readlink_result r.0, r.1)

  abbrev preread_failed : P → ℕ → ResultPreread P
  preread_failed path e = record {
    res = minus_one64;
    res_errno = e;
    path = path;
    offset = 0;
    bytes = [];
  }

  -- The errno of an `lseek` that has failed, or that has gone elsewhere.
  abbrev pub seek_errno : Outcome → K → ℕ
  seek_errno (done n) k = files.last_errno k
  seek_errno (failed e) k = e

  abbrev preread_result : P → ℕ → Outcome × List ℕ → ResultPreread P
  preread_result path offset (done n, bytes) = record {
    res = n;
    res_errno = 0;
    path = path;
    offset = offset;
    bytes = bytes;
  }
  preread_result path offset (failed e, bytes) = preread_failed path e

  -- The descriptor is closed on every way out.
  abbrev preread_opened : P → ℕ → ℕ → ℕ → K → ResultPreread P × K
  preread_opened path offset size fd k =
      let sought = posix.lseek (some fd) offset k in
      let r = posix.read (some fd) size sought.1 in
      if seek_ok posix offset sought.0
      then (preread_result path offset r.0, (posix.close (some fd) r.1).1)
      else (preread_failed path (seek_errno sought.0 sought.1), (posix.close (some fd) sought.1).1)

  -- O_RDONLY is 0.
  unfoldable process_preread : P → ℕ → ℕ → K → ResultPreread P × K
  process_preread path offset size k =
      let r = posix.open_file (map_path path) 0 none k in
      elim r.0 [
        | failed e ↦ (preread_failed path e, r.1)
        | done fd ↦ preread_opened path offset size fd r.1
      ]

  -- `directory_iterator`, if the path is no link and a directory; an exception ends the walk.
  abbrev walk_directory : Result Bool × K → P → List String × K
  walk_directory (raise e, k) path = ([], k)
  walk_directory (ok false, k) path = ([], k)
  walk_directory (ok true, k) path = let walk = files.directory path k in (walk.0.0, walk.1)

  abbrev pub walk_unlinked : Result Bool × K → P → List String × K
  walk_unlinked (raise e, k) path = ([], k)
  walk_unlinked (ok true, k) path = ([], k)
  walk_unlinked (ok false, k) path = walk_directory (files.is_directory path k) path

  unfoldable pub build_children :
      (P → K → Option TreeNode × K) → P → List String → K → Option TreeNodes × K
  build_children build path [] k = (some nil, k)
  build_children build path (x ∷ xs) k =
      let r = build (files.join path x) k in
      let rest = build_children build path xs r.1 in
      elim r.0 [
        | none ↦ (none, r.1)
        | some t ↦ elim rest.0 [ none ↦ (none, rest.1) | some ts ↦ (some (cons t ts), rest.1) ]
      ]

  -- The recursion has no bound in the code; here the first argument bounds its depth, and `none` is a
  -- tree that is deeper.
  unfoldable pub build_fs_fbb_tree : ℕ → P → K → Option TreeNode × K
  unfolding build_children
  build_fs_fbb_tree zero path k = (none, k)
  build_fs_fbb_tree (suc depth) path k =
      let st = files.lstat path k in
      let walk = walk_unlinked (files.is_symlink path st.1) path in
      let rest = build_children (build_fs_fbb_tree depth) path walk.0 walk.1 in
      (
        elim rest.0 [
          | none ↦ none
          | some ts ↦ some (tree_node (files.filename path) (stat_or_zero st.0) ts)
        ],
        rest.1,
      )

  unfoldable pub process_read_tree : ℕ → P → K → Option ResultReadTree × K
  unfolding build_fs_fbb_tree
  process_read_tree depth path k =
      let r = build_fs_fbb_tree depth (map_path path) k in
      (elim r.0 [ none ↦ none | some t ↦ some (record { res_errno = 0; tree = t }) ], r.1)
