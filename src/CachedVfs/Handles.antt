-- ===== src/CachedVfs/Handles.antt =====
-- The table of the opened files of `CachedVfs`: `open`, `create` and `close`.
use rewofs.Base.{
  ℕ, ◌≡◌, sym, Bool, true, false, Option, none, some, arith, ℕ_discrete, ite, Bool-cases, inl, inr,
  if◌then◌else◌, or_else, or_else-none,
}
use rewofs.Base.Assoc.{find-erase, find-emplace}
use rewofs.Base.Paths.{Paths}
use rewofs.Base.Result.{Result, ok, raise, Result-cases}
use rewofs.Vfs.{Vfs, IdDispenser, get_id}
use rewofs.Tree.{is_some}
use rewofs.Messages.{Stat}
use rewofs.Cache
use rewofs.Tree
use rewofs.CachedVfs.{
  created, enter, on_cache, State, File, find_file, close, open_file, wants_write, create,
}

abbrev pub returns {ℓ} : {A : Type ℓ} → Result A → Bool
returns (ok a) = true
returns (raise e) = false

abbrev pub file_of : {P : Type 0} → P → ℕ → Option ℕ → File P
file_of path flags h = record { open_flags = flags; subvfs_handle = h; path = path }

abbrev pub returned {ℓ} : {A : Type ℓ} → Result A → Option A
returned (ok a) = some a
returned (raise e) = none

abbrev pub entry : {P : Type 0} → Result ℕ → File P → ℕ → Option (File P)
entry (ok fh) file q = ite (ℕ_discrete fh q) (some file) none
entry (raise e) file q = none

module _ {P S : Type 0} ⦃paths : Paths P⦄ (sub : Vfs P (IdDispenser × S)) where
  -- `close` takes the entry of its handle away where it returns, and no other. Where it throws, on an
  -- unknown handle or because the other file system does, the table stays as it is.
  find_file-close :
      (fh q : ℕ) (s : State P S)
      → let after = close sub fh s in
        find_file q after.1
        ≡ ite (ℕ_discrete fh q) (if returns after.0 then none else find_file q s) (find_file q s)
  unfolding close
  find_file-close fh q s = ground (arith, find-erase ℕ_discrete fh q s.opened_files)

  find_file-enter :
      (file : File P) (q : ℕ) (s : State P S)
      → find_file q (enter file s).1 ≡ or_else (find_file q s) (entry (enter file s).0 file q)
  unfolding get_id
  find_file-enter file q s = find-emplace ℕ_discrete s.shared.0 q file s.opened_files

  -- The table after `open`: a file is entered under the handle that is returned, unless that number
  -- is taken, and nothing is where `open` throws; all other entries stay. The other file system opens
  -- the file first only if the flags ask for writing.
  find_file-open_file :
      (path : P) (flags q : ℕ) (s : State P S)
      → let after = open_file sub path flags s in
        let now =
          if wants_write flags then returned (sub.open_file path flags s.shared).0 else none in
        find_file q after.1 ≡ or_else (find_file q s) (entry after.0 (file_of path flags now) q)
  unfolding open_file get_id
  find_file-open_file path flags q s = elim (Bool-cases (wants_write flags)) [
    | inr h ↦ rw (h, open_file) (find_file-enter (file_of path flags none) q s)
    | inl h ↦
        rw (h, open_file)
          (elim (Result-cases (sub.open_file path flags s.shared).0) [
            | inl (sh, e) ↦ rw e (
                find_file-enter (file_of path flags (some sh)) q
                  (record s { shared = (sub.open_file path flags s.shared).1 }))
            | inr (x, e) ↦ rw e (sym (or_else-none (find_file q s)))
          ])
  ]

  find_file-created :
      (file : File P) (stat : Stat) (q : ℕ) (s : State P S)
      → find_file q (created file stat s).1
        ≡ or_else (find_file q s) (entry (created file stat s).0 file q)
  unfolding created Cache.make_node
  find_file-created file stat q s = elim (Result-cases (Tree.make_node file.path s.cache.tree)) [
    | inr (x, g) ↦ rw (g, created, on_cache) (sym (or_else-none (find_file q s)))
    | inl (t, g) ↦
        rw (g, created, on_cache)
          (find_file-enter file q
            (record s { cache = Cache.assign_st file.path stat (record s.cache { tree = t }) }))
  ]

  -- The table after `create`: the file is entered under the handle that is returned with the other
  -- file system's handle, unless the number is taken; where `create` throws, nothing is entered.
  find_file-create :
      (path : P) (flags mode q : ℕ) (s : State P S)
      → let after = create sub path flags mode s in
        let now = returned (sub.create path flags mode s.shared).0 in
        find_file q after.1 ≡ or_else (find_file q s) (entry after.0 (file_of path flags now) q)
  unfolding create get_id
  find_file-create path flags mode q s =
      elim (Result-cases (sub.create path flags mode s.shared).0) [
        | inr (x, e) ↦ rw (e, create) (sym (or_else-none (find_file q s)))
        | inl (sh, e) ↦
            let s1 = (sub.create path flags mode s.shared).1 in
            let file = file_of path flags (some sh) in
            rw (e, create)
              (elim (Result-cases (sub.getattr path s1).0) [
                | inr (x, f) ↦ rw f (sym (or_else-none (find_file q s)))
                | inl (stat, f) ↦
                    rw f (
                      find_file-created file stat q (record s { shared = (sub.getattr path s1).1 }))
              ])
      ]
