-- ===== src/CachedVfs/NameTests.antt =====
-- The operations of `CachedVfs` on names, and its invariant, at inputs.
use rewofs.Base.{ℕ, ◌≡◌, refl, List, [], ◌∷◌, String, none, some, ite, arith}
use rewofs.Base.Result.{ok, raise, system_error, eexist}
use rewofs.Messages.{Stat, no_stat}
use rewofs.Samples.{list_paths, parent_path, names_equal}
use rewofs.Content.Contract.{IsValid, cached}
use rewofs.Tree.{below_root}
use rewofs.Tree.View.{view}
use rewofs.CachedVfs
use rewofs.CachedVfs.{State, File, find_file}
use rewofs.CachedVfs.Sample.{
  program, Plain, plain, a, b, c, start, start-IsValid, keeps_length, zeros,
}
use rewofs.Tree.Spec.{View, spec_rename}
use rewofs.Content.{delete_file}
use rewofs.CachedVfs.{cached_vfs}
use rewofs.CachedVfs.Locked.{without_entry}
use rewofs.CachedVfs.Namespace.{Answers}
use rewofs.CachedVfs.Rename.{tree_after, rename-refines_vfs, rename_over, cached-rename}
use rewofs.CachedVfs.Operations.{Operation, run_all}
use rewofs.CachedVfs.Valid.{run_all-IsValid}

abbrev St : Type 0
St = State (List String) (List ℕ)

-- What the theorems on `mkdir` and `symlink` say of the states before and after.
abbrev Entered : (Stat → Stat → View → View) → List String → Plain → St → Type 0
Entered change path shared s' =
    (stat : Stat) × (parent_st : Stat) × Answers plain path shared stat parent_st
    × (s'.opened_files ≡ start.opened_files)
    × (s'.cache.content ≡ start.cache.content)
    × ((q : List String) → view s'.cache.tree q ≡ change stat parent_st (view start.cache.tree) q)

abbrev Removed : List String → Plain → St → Type 0
Removed path shared s' =
    (parent_st : Stat) × ((plain.getattr (parent_path path) shared).0 ≡ ok parent_st)
    × (s'.opened_files ≡ start.opened_files)
    × (s'.cache.content ≡ delete_file path start.cache.content)
    × ((q : List String)
        → view s'.cache.tree q ≡ without_entry path parent_st (view start.cache.tree) q)

view-a : view start.cache.tree (below_root a) ≡ some no_stat
unfolding program view
view-a = refl

view-b : view start.cache.tree (below_root b) ≡ some no_stat
unfolding program view
view-b = refl

rename-refines_vfs_example :
    tree_after (CachedVfs.rename plain a c 0 start) ≡ spec_rename a c (view start.cache.tree)
rename-refines_vfs_example = rename-refines_vfs plain a c 0 start refl

rename_over_example : CachedVfs.rename plain a b 0 start ≡ (raise (system_error eexist), start)
unfolding program
rename_over_example =
    rename_over plain a b 0 start no_stat no_stat refl refl refl refl view-a view-b

cached-rename_example :
    let s' = (CachedVfs.rename plain a c 0 start).1 in
    (s'.opened_files ≡ start.opened_files)
    × ((q : List String) (x : ℕ)
        → cached s'.cache.content q x
          ≡ ite
              (names_equal c q)
              none
              (ite (names_equal a q) none (cached start.cache.content q x)))
unfolding program
cached-rename_example = cached-rename plain a c 0 start (CachedVfs.rename plain a c 0 start).1 refl

abbrev some_calls : List (Operation (List String))
some_calls = Operation.read 7 zeros 0 ∷ Operation.rename a c 0 ∷ Operation.write 7 zeros 2 ∷ []

run_all-IsValid_example : IsValid (run_all (cached_vfs plain) some_calls start).cache.content
run_all-IsValid_example =
    run_all-IsValid plain (λ h m offset output bytes s. keeps_length h m offset output bytes s)
      some_calls start (omega arith, (tt, (omega arith, tt))) start-IsValid
