-- ===== src/Content/Tests.antt =====
-- The unit tests of the content cache (tests/unit/test_caches.cpp), and the theorems at inputs.
use rewofs.Base.{◌≡◌, refl, List, [], ◌∷◌, String, some, ite, or_else, arith, inl}
use rewofs.Base.Result.{ok, ◌>>=◌}
use rewofs.Samples.{list_paths, names_equal}
use rewofs.Content.{Content, copy_at, read, write, delete_file, flatten_blocks, sort, blocks_at}
use rewofs.Content.Blocks.{overlay, byte_at}
use rewofs.Content.Placement.{above}
use rewofs.Content.Contract.{
  single-IsValid, cached, block, IsValid, cached-write, cached-write_stale,
}
use rewofs.Content.Read.{read-write}

program : Unit {0}
unfolding copy_at read write delete_file flatten_blocks sort names_equal blocks_at overlay
program = tt

abbrev a : List String
a = "a" ∷ []

abbrev b : List String
b = "b" ∷ []

abbrev none_yet : Content (List String)
none_yet = []

-- One block of four bytes at offset 10, as the first write of most unit tests leaves it.
abbrev one : Content (List String)
one = (a, block 10 (1 ∷ 2 ∷ 3 ∷ 4 ∷ []) ∷ []) ∷ []

one-IsValid : IsValid one
one-IsValid = single-IsValid a (block 10 (1 ∷ 2 ∷ 3 ∷ 4 ∷ []) ∷ []) (omega arith) (omega arith)

-- RW_OverlappingWrites
overlapping :
    (write a 10 (1 ∷ 2 ∷ 3 ∷ 4 ∷ []) none_yet
      >>= write a 12 (5 ∷ 6 ∷ 7 ∷ 8 ∷ [])
      >>= write a 14 (9 ∷ 10 ∷ 11 ∷ 12 ∷ [])
      >>= λ m. ok (read a 10 7 m))
    ≡ ok (some (1 ∷ 2 ∷ 5 ∷ 6 ∷ 9 ∷ 10 ∷ 11 ∷ []))
unfolding program
overlapping = refl

-- A new block that starts before a cached one and overlaps it loses the overlap.
stale :
    (write a 10 (1 ∷ 2 ∷ 3 ∷ 4 ∷ []) none_yet >>= write a 8 (7 ∷ 7 ∷ 7 ∷ 7 ∷ []) >>= λ m.
    ok (read a 8 4 m))
    ≡ ok (some (7 ∷ 7 ∷ 1 ∷ 2 ∷ []))
unfolding program
stale = refl

-- The theorems at inputs.
-- The cache after the write of three bytes at 12, and of four at 8.
abbrev after_12 : Content (List String)
after_12 = (a, block 10 (1 ∷ 2 ∷ 5 ∷ 6 ∷ 7 ∷ []) ∷ []) ∷ []

abbrev after_8 : Content (List String)
after_8 = (a, block 8 (7 ∷ 7 ∷ 1 ∷ 2 ∷ 3 ∷ 4 ∷ []) ∷ []) ∷ []

done_12 : write a 12 (5 ∷ 6 ∷ 7 ∷ []) one ≡ ok after_12
unfolding program
done_12 = refl

done_8 : write a 8 (7 ∷ 7 ∷ 7 ∷ 7 ∷ []) one ≡ ok after_8
unfolding program
done_8 = refl

cached-write_example :
    cached after_12 b 12
    ≡ ite
        (names_equal a b)
        (or_else
          (overlay (above 12 (blocks_at a one)) 12)
          (or_else (byte_at (block 12 (5 ∷ 6 ∷ 7 ∷ [])) 12) (cached one a 12)))
        (cached one b 12)
cached-write_example =
    cached-write a 12 (5 ∷ 6 ∷ 7 ∷ []) one after_12 one-IsValid (omega arith) done_12 b 12

cached-write_stale_example : (cached one a 11 ≡ some 2) × (cached after_8 a 11 ≡ some 2)
unfolding program
cached-write_stale_example =
    cached-write_stale a 8 (7 ∷ 7 ∷ 7 ∷ 7 ∷ []) one after_8 one-IsValid (omega arith) done_8 11 2
      refl

read-write_example : read a 12 3 after_12 ≡ some (5 ∷ 6 ∷ 7 ∷ [])
unfolding program
read-write_example =
    read-write a 12 (5 ∷ 6 ∷ 7 ∷ []) one after_12 one-IsValid (omega arith) done_12
      (inl (omega arith), tt) (omega arith)
