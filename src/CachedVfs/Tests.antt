-- ===== src/CachedVfs/Tests.antt =====
-- Reads, writes and handles of `CachedVfs` at inputs.
use rewofs.Base.{◌≡◌, refl, [], ◌∷◌, arith, inl}
use rewofs.Base.Result.{ok}
use rewofs.Samples.{list_paths}
use rewofs.CachedVfs
use rewofs.CachedVfs.{State, File, find_file}
use rewofs.CachedVfs.ReadWrite.{read_again, read-write_file, read-truncate}
use rewofs.CachedVfs.Sample.{
  program, plain, a, start, file_a, start-IsValid, opened_file, keeps_length, zeros, filled,
}

-- A read at the end of the file is short, and its repetition has the whole count.
short_read :
    (CachedVfs.read plain 7 (0 ∷ 0 ∷ 0 ∷ 0 ∷ 0 ∷ 0 ∷ []) 0 start).0
    ≡ ok (4, 1 ∷ 2 ∷ 3 ∷ 4 ∷ 0 ∷ 0 ∷ [])
unfolding program
short_read = refl

-- The theorems at inputs.
read_again_example :
    CachedVfs.read plain 7 zeros 0 (CachedVfs.read plain 7 zeros 0 start).1
    ≡ (ok (6, filled), (CachedVfs.read plain 7 zeros 0 start).1)
unfolding program
read_again_example =
    read_again plain 7 file_a 0 zeros (λ h m d s. keeps_length h m 0 zeros d s) 4 filled zeros start
      (CachedVfs.read plain 7 zeros 0 start).1 start-IsValid (omega arith) (omega arith) opened_file
      (inl (omega arith), tt) refl refl

read-write_file_example :
    CachedVfs.read plain 7 zeros 0 (CachedVfs.write plain 7 filled 0 start).1
    ≡ (ok (6, filled), (CachedVfs.write plain 7 filled 0 start).1)
unfolding program
read-write_file_example =
    read-write_file plain 7 file_a 0 filled 6 7 file_a zeros start
      (CachedVfs.write plain 7 filled 0 start).1 start-IsValid (omega arith) (omega arith)
      (inl (omega arith), tt) opened_file opened_file refl refl refl

read-truncate_example :
    CachedVfs.read plain 7 (0 ∷ 0 ∷ []) 1 (CachedVfs.truncate plain a 0 start).1
    ≡ (ok (2, 2 ∷ 3 ∷ []), (CachedVfs.truncate plain a 0 start).1)
unfolding program
read-truncate_example =
    read-truncate plain a 0 start 7 1 file_a (0 ∷ 0 ∷ []) (2 ∷ 3 ∷ []) start-IsValid (omega arith)
      opened_file refl
