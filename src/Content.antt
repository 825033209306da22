-- ===== src/Content.antt =====
-- The file content cache, `Content` of src/rewofs/client/cache.hpp and cache.cpp: for each path a
-- list of blocks of bytes. Offsets and sizes are 64-bit, and their sums wrap. The children prove
-- what the blocks of one file hold (`Blocks`, `Flatten`, `Placement`), and what a read returns.
pub mod Blocks
pub mod Join
pub mod Flatten
pub mod Placement
pub mod Write
pub mod Contract
pub mod Read
mod Tests
use rewofs.Base.{
  ℕ, zero, suc, ◌+◌, ◌-◌, ◌%◌, ◌^◌, max, Bool, true, false, ◌&&◌, List, [], ◌∷◌, ◌++◌, Option, none,
  some, length, take, drop, replicate, find_if, ltb, leb, if◌then◌else◌,
}
use rewofs.Base.Assoc.{find, put, erase}
use rewofs.Base.Paths.{Paths}
use rewofs.Base.Result.{Result, ok, raise, runtime_error}

pub record Block : Type 0 where
  pub start : ℕ
  pub content : List ℕ

-- `m_blocks`
abbrev pub Content : Type 0 → Type 0
Content P = List (P × List Block)

-- Sums of `uintmax_t` and `size_t`.
abbrev pub add64 : ℕ → ℕ → ℕ
add64 a b = (a + b) % 2 ^ 64

-- The test of both `std::find_if` calls: the block holds `size` bytes from `start`.
abbrev pub holds : ℕ → ℕ → Block → Bool
holds start size b = leb b.start start && leb (add64 (start - b.start) size) (length b.content)

abbrev pub overwrite_front : List ℕ → List ℕ → List ℕ
overwrite_front [] dst = dst
overwrite_front (s ∷ src) [] = []
overwrite_front (s ∷ src) (d ∷ dst) = s ∷ overwrite_front src dst

-- `std::copy(src.begin(), src.end(), dst.begin() + offset)`
unfoldable pub copy_at : List ℕ → ℕ → List ℕ → List ℕ
copy_at src zero dst = overwrite_front src dst
copy_at src (suc offset) [] = []
copy_at src (suc offset) (d ∷ dst) = d ∷ copy_at src offset dst

-- The in-place write of `Content::write`: into the first block that holds the range.
unfoldable pub overwrite : ℕ → List ℕ → List Block → List Block
overwrite start content [] = []
overwrite start content (b ∷ bs) =
    if holds start (length content) b
    then record b { content = copy_at content (start - b.start) b.content } ∷ bs
    else b ∷ overwrite start content bs

-- `std::list::sort` by start, which is stable: an element stays before its equals.
unfoldable pub insert : Block → List Block → List Block
insert b [] = b ∷ []
insert b (c ∷ cs) = if ltb c.start b.start then c ∷ insert b cs else b ∷ c ∷ cs

unfoldable pub sort : List Block → List Block
unfolding insert
sort [] = []
sort (b ∷ bs) = insert b (sort bs)

-- The body of the loop of `flatten`: the next block is copied over this one.
unfoldable pub join : Block → Block → Block
join it next = record it { content = joined }
  where
    offset : ℕ
    offset = next.start - it.start

    joined : List ℕ
    joined = copy_at next.content offset (
        copy_at it.content 0 (replicate (max (length it.content) (offset + length next.content)) 0))

-- The loop, from the block that `it` names and the blocks behind it.
unfoldable pub merge : Block → List Block → List Block
unfolding join
merge it [] = it ∷ []
merge it (next ∷ rest) = elim (leb next.start (add64 it.start (length it.content))) [
  | true ↦ merge (join it next) rest
  | false ↦ it ∷ merge next rest
]

abbrev pub merge_all : List Block → List Block
merge_all [] = []
merge_all (it ∷ rest) = merge it rest

unfoldable pub flatten_blocks : List Block → List Block
unfolding sort merge
flatten_blocks blocks = if leb (length blocks) 1 then blocks else merge_all (sort blocks)

module _ {P : Type 0} ⦃paths : Paths P⦄ where
  unfoldable pub reset : Content P → Content P
  reset m = []

  -- The span that `store_cb` is called with; `none` is the result `false`.
  unfoldable pub read : P → ℕ → ℕ → Content P → Option (List ℕ)
  unfolding find
  read path start size m = elim (find paths.equal path m) [
    | none ↦ none
    | some blocks ↦ elim (find_if (holds start size) blocks) [
      | none ↦ none
      | some it ↦ some (take size (drop (start - it.start) it.content))
    ]
  ]

  -- `m_blocks.at(path)` throws `std::out_of_range` on a path that is not there.
  unfoldable pub flatten : P → Content P → Result (Content P)
  unfolding flatten_blocks find put
  flatten path m = elim (find paths.equal path m) [
    | none ↦ raise runtime_error
    | some blocks ↦ ok (put paths.equal path (flatten_blocks blocks) m)
  ]

  -- `m_blocks[path]`, which makes an empty list of a path that is not there.
  unfoldable pub blocks_at : P → Content P → List Block
  unfolding find
  blocks_at path m = elim (find paths.equal path m) [ none ↦ [] | some blocks ↦ blocks ]

  -- The end of `write`, where no block holds the range.
  unfoldable pub append_block : P → ℕ → List ℕ → Content P → Result (Content P)
  unfolding flatten blocks_at put
  append_block path start content m = flatten path (
      put paths.equal path (blocks_at path m ++ record { start = start; content = content } ∷ []) m)

  unfoldable pub write : P → ℕ → List ℕ → Content P → Result (Content P)
  unfolding append_block overwrite find put
  write path start content m = elim (find paths.equal path m) [
    | none ↦ append_block path start content m
    | some blocks ↦ elim (find_if (holds start (length content)) blocks) [
      | none ↦ append_block path start content m
      | some _ ↦ ok (put paths.equal path (overwrite start content blocks) m)
    ]
  ]

  unfoldable pub delete_file : P → Content P → Content P
  unfolding erase
  delete_file path m = erase paths.equal path m
