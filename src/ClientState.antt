-- ===== src/ClientState.antt =====
-- The state of `CachedVfs`, src/rewofs/client/vfs.hpp and vfs.cpp, and what its operations do with the
-- parts of it: the cache, the table of opened files, and the other file system.
use rewofs.Base.{
  ℕ, ◌-◌, ◌/◌, ◌%◌, ◌^◌, Bool, ◌||◌, List, [], ◌∷◌, Option, none, some, String, ◌==◌, ℕ_discrete,
}
use rewofs.Base.Assoc.{find, put, erase, emplace}
use rewofs.Base.Result.{Result, ok, raise, system_error, undefined, ebadf, or_throw}
use rewofs.Messages.{Stat}
use rewofs.Tree.{Children, nil, cons, st}
use rewofs.Cache.{Cache}
use rewofs.Vfs.{IdDispenser, get_id}
use rewofs.Vfs.Call.{Action}

pub record File (P : Type 0) : Type 0 where
  pub open_flags : ℕ
  pub subvfs_handle : Option ℕ
  pub path : P

-- `shared` is the dispenser and the state of the other file system.
pub record State (P S : Type 0) : Type 0 where
  pub cache : Cache P
  pub opened_files : List (ℕ × File P)
  pub shared : IdDispenser × S

-- `flags & (1 << bit)`
abbrev pub has_bit : ℕ → ℕ → Bool
has_bit bit flags = (flags / 2 ^ bit) % 2 == 1

-- O_WRONLY is 1, O_RDWR 2 and O_APPEND 02000.
abbrev pub wants_write : ℕ → Bool
wants_write flags = has_bit 0 flags || has_bit 1 flags || has_bit 10 flags

abbrev pub rename_exchange : ℕ → Bool
rename_exchange flags = has_bit 1 flags

abbrev pub utime_omit : ℕ
utime_omit = 2 ^ 30 - 2

-- The loop over the children, in the order of the map.
abbrev pub entries : Children → List (String × Stat)
entries nil = []
entries (cons k v cs) = (k, st v) ∷ entries cs

module _ {P S : Type 0} where
  abbrev pub on_sub : {A : Type 0} → Action (IdDispenser × S) A → Action (State P S) A
  on_sub call s = let r = call s.shared in (r.0, record s { shared = r.1 })

  -- A cache operation leaves the cache as it is where it throws.
  abbrev pub on_cache : (Cache P → Result (Cache P)) → Action (State P S) (Unit {0})
  on_cache f s = elim (f s.cache) [
    | ok c ↦ (ok tt, record s { cache = c })
    | raise e ↦ (raise e, s)
  ]

  abbrev pub find_file : ℕ → State P S → Option (File P)
  find_file fh s = find ℕ_discrete fh s.opened_files

  -- `m_opened_files.find(fh)`, and EBADF at the end.
  abbrev pub opened : ℕ → State P S → Result (File P)
  opened fh s = or_throw (system_error ebadf) (find_file fh s)

  -- The end of `create` and `open`: a new handle, under which the file is entered.
  abbrev pub enter : File P → Action (State P S) ℕ
  enter file s =
      let r = get_id s.shared.0 in
      (
        ok r.0,
        record s {
          opened_files = emplace ℕ_discrete r.0 file s.opened_files;
          shared = (r.1, s.shared.1);
        },
      )

  abbrev pub forget : ℕ → Action (State P S) (Unit {0})
  forget fh s = (ok tt, record s { opened_files = erase ℕ_discrete fh s.opened_files })

  -- `refreshed_it->second.subvfs_handle = subhandle`: the end of the table is not an entry.
  abbrev pub remember : ℕ → ℕ → Action (State P S) P
  remember fh subhandle s = elim (find_file fh s) [
    | none ↦ (raise undefined, s)
    | some f ↦ (
      ok f.path,
      record s {
        opened_files =
            put ℕ_discrete fh (record f { subvfs_handle = some subhandle }) s.opened_files;
      },
    )
  ]
