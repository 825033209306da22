-- ===== src/BackgroundLoader/Preload.antt =====
-- The preloading of `BackgroundLoader`, src/rewofs/client/vfs.cpp: the choice of the files, the blocks they
-- are asked for in, and the bulks in which the answers are waited for.
use rewofs.Base.{
  ℕ, zero, suc, ◌+◌, ◌-◌, ◌*◌, min, Bool, true, false, ◌&&◌, not, List, [], ◌∷◌, ◌++◌, Option, none,
  some, String, bytes_of, length, take, drop, replicate, ltb, leb, ◌==◌, if◌then◌else◌,
}
use rewofs.Base.Paths.{Paths}
use rewofs.Base.Result.{Result, ok, raise, system_error, ehostunreach, runtime_error, undefined}
use rewofs.Messages.{Stat}
use rewofs.Content.{copy_at, add64}
use rewofs.Tree.{Node, Children, node, nil, cons}
use rewofs.Cache.{Cache}
use rewofs.Cache
use rewofs.Vfs.Call.{Action, ◌>>=◌, ◌>>◌, return}
use rewofs.Channel.{ResultPreread}
use rewofs.RemoteVfs.{io_fragment_size, is_negative}
use rewofs.CachedVfs.{has_bit}
use rewofs.BackgroundLoader.{block_aligned_size}

-- What the loader uses of paths beside `Paths`: "/", `parent / name`, and the text.
pub record PathText (P : Type 0) : Type 0 where
  pub root : P
  pub child : P → String → P
  pub native : P → String

-- `BackgroundLoader::FileInfo`
pub record FileInfo (P : Type 0) : Type 0 where
  pub path : P
  pub size : ℕ

abbrev equal_bytes : List ℕ → List ℕ → Bool
equal_bytes [] [] = true
equal_bytes (x ∷ xs) (y ∷ ys) = x == y && equal_bytes xs ys
equal_bytes _ _ = false

-- What `.` matches: no line feed and no carriage return.
abbrev one_line : List ℕ → Bool
one_line [] = true
one_line (x ∷ xs) = not (x == 10) && not (x == 13) && one_line xs

abbrev starts_with : ℕ → List ℕ → Bool
starts_with c [] = false
starts_with c (x ∷ xs) = x == c

-- The regular expression ".*/.gitignore", whose second dot stands for any character, matches the whole text.
unfoldable pub matches_pattern : List ℕ → Bool
matches_pattern text =
    let n = length text in
    leb 11 n
    && one_line (take (n - 9) text)
    && starts_with b'/' (drop (n - 11) text)
    && equal_bytes (drop (n - 9) text) (bytes_of "gitignore")

-- S_IFDIR is 0040000, S_IFLNK 0120000.
abbrev pub is_directory : ℕ → Bool
is_directory mode = has_bit 14 mode

abbrev pub is_symlink : ℕ → Bool
is_symlink mode = has_bit 15 mode && has_bit 13 mode

module _ {P : Type 0} (text : PathText P) where
  abbrev chosen : P → Stat → List (FileInfo P)
  chosen path st =
      if not (is_directory st.st_mode)
        && not (is_symlink st.st_mode)
        && matches_pattern (bytes_of (text.native path))
      then record { path = path; size = st.st_size } ∷ []
      else []

  -- `browser_impl` on a node whose path is known, and its loop over the children.
  unfoldable mutual
    unfolding matches_pattern

    browse : P → Node → List (FileInfo P)
    browse path (node name st children) = chosen path st ++ browse_all path children

    browse_all : P → Children → List (FileInfo P)
    browse_all path nil = []
    browse_all path (cons key c cs) = browse (child_path path c) c ++ browse_all path cs

    child_path : P → Node → P
    child_path path (node name st children) = text.child path name

  unfoldable pub files_list : Node → List (FileInfo P)
  unfolding browse
  files_list root = browse text.root root

-- The inner `while` loop: the offset and the size of each block of a file. As long as the offset does not
-- wrap, each round advances by at least one byte, so that as much fuel as there are bytes is enough; with a
-- size of more than 2 ^ 64 - IO_FRAGMENT_SIZE, which a negative `st_size` is, the loop of the code has no end.
unfoldable pub file_blocks : ℕ → ℕ → ℕ → List (ℕ × ℕ)
file_blocks zero offset size = []
file_blocks (suc fuel) offset size =
    let rest = file_blocks fuel (add64 offset io_fragment_size) size in
    if ltb offset size then (offset, min io_fragment_size (size - offset)) ∷ rest else []

-- A block to ask for.
pub record Block (P : Type 0) : Type 0 where
  pub path : P
  pub offset : ℕ
  pub size : ℕ

module _ {P : Type 0} where
  abbrev pub blocks_of : P → List (ℕ × ℕ) → List (Block P)
  blocks_of path [] = []
  blocks_of path ((offset, size) ∷ rest) =
      record { path = path; offset = offset; size = size } ∷ blocks_of path rest

  -- The blocks of all files, in the order of the two loops.
  unfoldable pub all_blocks : List (FileInfo P) → List (Block P)
  unfolding file_blocks
  all_blocks [] = []
  all_blocks (f ∷ fs) = blocks_of f.path (file_blocks f.size 0 f.size) ++ all_blocks fs

-- BULK_SIZE
abbrev pub bulk_size : ℕ
bulk_size = 1024 * 1024

-- `Serializer::add_command` of a `CommandPreread`, and `Deserializer::wait_for_result`.
pub record Prereads (P T : Type 0) : Type 0 where
  pub add_command : Block P → T → ℕ × T
  pub wait_for_result : ℕ → T → Option (ResultPreread P) × T

module _ {P T : Type 0} ⦃paths : Paths P⦄ (comm : Prereads P T) where
  -- `m_cache.write`, and the channel as it is.
  abbrev pub on_cache : (Cache P → Result (Cache P)) → Action (Cache P × T) (Unit {0})
  on_cache f s = elim (f s.0) [ ok c ↦ (ok tt, (c, s.1)) | raise e ↦ (raise e, s) ]

  abbrev add : Block P → Action (Cache P × T) ℕ
  add block s = let r = comm.add_command block s.1 in (ok r.0, (s.0, r.1))

  abbrev pub padded : List ℕ → List ℕ
  padded bytes = copy_at bytes 0 (replicate (block_aligned_size (length bytes)) 0)

  -- What is done with an answer: an error of the server is passed over.
  unfoldable pub store : ResultPreread P → Action (Cache P × T) (Unit {0})
  unfolding Cache.write copy_at block_aligned_size
  store message = elim (is_negative message.res) [
    | true ↦ return tt
    | false ↦ on_cache (Cache.write message.path message.offset (padded message.bytes))
  ]

  abbrev await : ℕ → Action (Cache P × T) (ResultPreread P)
  await mid s =
      let r = comm.wait_for_result mid s.1 in
      (elim r.0 [ none ↦ raise (system_error ehostunreach) | some m ↦ ok m ], (s.0, r.1))

  unfoldable pub wait_for_mids : List ℕ → Action (Cache P × T) (Unit {0})
  unfolding store
  wait_for_mids [] = return tt
  wait_for_mids (mid ∷ mids) = do m ← await mid; store m; wait_for_mids mids

  -- The loops of `preload_files_bulks`, with `mids` and `size_counter`, and the last wait.
  unfoldable pub send_blocks : List (Block P) → List ℕ → ℕ → Action (Cache P × T) (Unit {0})
  unfolding wait_for_mids
  send_blocks [] mids size_counter = wait_for_mids mids
  send_blocks (b ∷ bs) mids size_counter = do
    mid ← add b
    elim (leb bulk_size (size_counter + b.size)) [
      | true ↦ wait_for_mids (mids ++ mid ∷ []) >> send_blocks bs [] 0
      | false ↦ send_blocks bs (mids ++ mid ∷ []) (size_counter + b.size)
    ]

  -- An exception ends the preloading, and is logged.
  abbrev pub logged : Result (Unit {0}) × (Cache P × T) → Result (Unit {0}) × (Cache P × T)
  logged (ok u, s) = (ok tt, s)
  logged (raise undefined, s) = (raise undefined, s)
  logged (raise (system_error e), s) = (ok tt, s)
  logged (raise runtime_error, s) = (ok tt, s)

  unfoldable pub preload_files_bulks : List (FileInfo P) → Action (Cache P × T) (Unit {0})
  unfolding send_blocks all_blocks
  preload_files_bulks files s = logged (send_blocks (all_blocks files) [] 0 s)

  unfoldable pub preload_files : PathText P → Action (Cache P × T) (Unit {0})
  unfolding preload_files_bulks files_list
  preload_files text s = preload_files_bulks (files_list text s.0.tree) s
