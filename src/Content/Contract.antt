-- ===== src/Content/Contract.antt =====
-- `Content::write` and `Content::delete_file` on the whole cache: an invariant, and the bytes held.
use rewofs.Base.{
  ℕ, ◌+◌, ◌<◌, ◌^◌, ◌≡◌, refl, ◌∙◌, sym, List, [], ◌∷◌, ◌++◌, length, or_else, arith, none, some,
  Option, inl, inr, Option-cases, find_if, ite, if_pos, if_neg,
}
use rewofs.Base.Assoc.{find, put, find-put, find-erase}
use rewofs.Base.Paths.{Paths}
use rewofs.Base.Result.{ok}
use rewofs.Content.{
  Block, Content, holds, overwrite, flatten, flatten_blocks, blocks_at, append_block, write,
  delete_file,
}
use rewofs.Content.Blocks.{Separated-Ascending, byte_at, overlay, end, Separated, Fits}
use rewofs.Content.Placement.{above}
use rewofs.Content.Write.{
  overlay-above, overlay-above-IsClear, found-IsClear, appended, appended_shape, overlay-appended,
  overwrite_shape, overlay-overwrite, IsClear,
}

abbrev pub block : ℕ → List ℕ → Block
block start content = record { start = start; content = content }

-- The blocks of one file after a write of `n`.
unfoldable file_write : Block → List Block → List Block
file_write n bs = elim (find_if (holds n.start (length n.content)) bs) [
  | none ↦ appended n bs
  | some _ ↦ overwrite n.start n.content bs
]

file_write_miss :
    (n : Block) (bs : List Block)
    → find_if (holds n.start (length n.content)) bs ≡ none
    → file_write n bs ≡ appended n bs
unfolding file_write
file_write_miss n bs e = rw (e, file_write)

file_write_hit :
    (n : Block) (bs : List Block) (b : Block)
    → find_if (holds n.start (length n.content)) bs ≡ some b
    → file_write n bs ≡ overwrite n.start n.content bs
unfolding file_write
file_write_hit n bs b e = rw (e, file_write)

module _ {P : Type 0} ⦃paths : Paths P⦄ where
  -- The byte of `path` at offset `x` that the cache holds.
  abbrev pub cached : Content P → P → ℕ → Option ℕ
  cached m path x = overlay (blocks_at path m) x

  -- The blocks of every file are separated, and no sum of an offset and a size wraps.
  abbrev pub IsValid : Content P → Type 0
  IsValid m = (q : P) → Separated 0 (blocks_at q m) × Fits (blocks_at q m)

  blocks_at-put :
      (path q : P) (bs : List Block) (m : Content P)
      → blocks_at q (put paths.equal path bs m) ≡ ite (paths.equal path q) bs (blocks_at q m)
  unfolding blocks_at
  blocks_at-put path q bs m = ground (arith, find-put paths.equal path q bs m)

  flatten_lem :
      (path : P) (bs : List Block) (m : Content P)
      → flatten path (put paths.equal path bs m)
        ≡ ok (put paths.equal path (flatten_blocks bs) (put paths.equal path bs m))
  unfolding flatten
  flatten_lem path bs m = ground (arith, find-put paths.equal path path bs m)

  blocks_at-put-put :
      (path q : P) (old bs : List Block) (m : Content P)
      → blocks_at q (put paths.equal path bs (put paths.equal path old m))
        ≡ ite (paths.equal path q) bs (blocks_at q m)
  blocks_at-put-put path q old bs m =
      ground
        (arith, blocks_at-put path q bs (put paths.equal path old m), blocks_at-put path q old m)

  abbrev with_appended : P → Block → Content P → Content P
  with_appended path n m =
      put paths.equal path (appended n (blocks_at path m))
        (put paths.equal path (blocks_at path m ++ n ∷ []) m)

  append_block_lem :
      (path : P) (start : ℕ) (content : List ℕ) (m : Content P)
      → append_block path start content m ≡ ok (with_appended path (block start content) m)
  unfolding append_block
  append_block_lem path start content m =
      flatten_lem path (blocks_at path m ++ block start content ∷ []) m

  blocks_at-none :
      (path : P) (m : Content P) → find paths.equal path m ≡ none → blocks_at path m ≡ []
  unfolding blocks_at
  blocks_at-none path m e = rw (e, blocks_at)

  blocks_at-some :
      (path : P) (bs : List Block) (m : Content P)
      → find paths.equal path m ≡ some bs
      → blocks_at path m ≡ bs
  unfolding blocks_at
  blocks_at-some path bs m e = rw (e, blocks_at)

  -- `write` returns, and touches the blocks of its own file only.
  write-blocks_at :
      (path : P) (start : ℕ) (content : List ℕ) (m : Content P)
      → (m' : Content P) × (write path start content m ≡ ok m')
        × ((q : P)
            → blocks_at q m'
              ≡ ite
                  (paths.equal path q)
                  (file_write (block start content) (blocks_at path m))
                  (blocks_at q m))
  unfolding write
  write-blocks_at path start content m = elim (Option-cases (find paths.equal path m)) [
    | inl e ↦ (
      with_appended path (block start content) m,
      rw (e, write) (append_block_lem path start content m),
      λ q.
          blocks_at-put-put path q (blocks_at path m ++ block start content ∷ [])
            (appended (block start content) (blocks_at path m)) m
          ∙ rw (blocks_at-none path m e, file_write_miss (block start content) [] refl),
    )
    | inr (bs, e) ↦ elim (Option-cases (find_if (holds start (length content)) bs)) [
      | inl f ↦ (
        with_appended path (block start content) m,
        rw (e, write) (rw f (append_block_lem path start content m)),
        λ q.
            blocks_at-put-put path q (blocks_at path m ++ block start content ∷ [])
              (appended (block start content) (blocks_at path m)) m
            ∙ rw (blocks_at-some path bs m e, file_write_miss (block start content) bs f),
      )
      | inr (b, f) ↦ (
        put paths.equal path (overwrite start content bs) m,
        rw (e, write) (rw f),
        λ q.
            blocks_at-put path q (overwrite start content bs) m
            ∙ rw (blocks_at-some path bs m e, file_write_hit (block start content) bs b f),
      )
    ]
  ]

module _ (n : Block) (bs : List Block) (small : end n < 2 ^ 64) (s : Separated 0 bs)
    (f : Fits bs) where
  file_write_shape : Separated 0 (file_write n bs) × Fits (file_write n bs)
  file_write_shape = elim (Option-cases (find_if (holds n.start (length n.content)) bs)) [
    | inl e ↦ rw (file_write_miss n bs e) (appended_shape n bs small s f)
    | inr (b, e) ↦ rw (file_write_hit n bs b e) (overwrite_shape n small 0 bs s f)
  ]

  -- The blocks that start behind the new one stay on top of it, and it is on top of all others.
  overlay-file_write :
      (x : ℕ)
      → overlay (file_write n bs) x
        ≡ or_else (overlay (above n.start bs) x) (or_else (byte_at n x) (overlay bs x))
  overlay-file_write x = elim (Option-cases (find_if (holds n.start (length n.content)) bs)) [
    | inl e ↦ rw (file_write_miss n bs e) (overlay-appended n bs small s f x)
    | inr (b, e) ↦ rw (file_write_hit n bs b e) (
        overlay-overwrite n small 0 bs b x s e
        ∙ sym (
            overlay-above-IsClear n 0 bs x (Separated-Ascending 0 bs s)
              (found-IsClear n 0 bs b small s e)))
  ]

module _ {P : Type 0} ⦃paths : Paths P⦄ where
  blocks_at-single :
      (path q : P) (bs : List Block)
      → blocks_at q ((path, bs) ∷ []) ≡ ite (paths.equal path q) bs []
  unfolding blocks_at
  blocks_at-single path q bs = ground arith

  -- A cache of one file is valid if its blocks are.
  pub single-IsValid :
      (path : P) (bs : List Block) → Separated 0 bs → Fits bs → IsValid ((path, bs) ∷ [])
  single-IsValid path bs s f q = rw (blocks_at-single path q bs) (elim (paths.equal path q) [
    | yes p ↦ rw (if_pos _ p) (s, f)
    | no p ↦ rw (if_neg _ p) (tt, tt)
  ])

  -- On a valid cache a write whose range ends below 2 ^ 64 returns, and leaves a valid cache.
  pub write-IsValid :
      (path : P) (start : ℕ) (content : List ℕ) (m : Content P)
      → IsValid m
      → start + length content < 2 ^ 64
      → (m' : Content P) × (write path start content m ≡ ok m') × IsValid m'
  write-IsValid path start content m valid small =
      let (m', done, blocks) = write-blocks_at path start content m in
      let (s, f) = valid path in
      (
        m',
        done,
        λ q. rw (blocks q) (elim (paths.equal path q) [
          | yes p ↦
              rw (if_pos _ p) (file_write_shape (block start content) (blocks_at path m) small s f)
          | no p ↦ rw (if_neg _ p) (valid q)
        ]),
      )

module _ {P : Type 0} ⦃paths : Paths P⦄ (path : P) (start : ℕ) (content : List ℕ) (m m' : Content P)
    (valid : IsValid m) (small : start + length content < 2 ^ 64)
    (done : write path start content m ≡ ok m') where
  write_done :
      (q : P)
      → blocks_at q m'
        ≡ ite
            (paths.equal path q)
            (file_write (block start content) (blocks_at path m))
            (blocks_at q m)
  write_done q =
      let (m'', done', blocks) = write-blocks_at path start content m in
      let e : m'' ≡ m' = cc in rw e at (blocks q)

  -- What the cache holds after a write that returns, on a valid cache, to a range that ends below
  -- 2 ^ 64: of the file itself, the blocks that start behind the written range's start hide the
  -- new bytes, and these hide all else; other files keep every byte.
  pub cached-write :
      (q : P) (x : ℕ)
      → cached m' q x
        ≡ ite
            (paths.equal path q)
            (or_else
              (overlay (above start (blocks_at path m)) x)
              (or_else (byte_at (block start content) x) (cached m path x)))
            (cached m q x)
  cached-write q x = rw (write_done q) (elim (paths.equal path q) [
    | yes p ↦
        rw (if_pos _ p, if_pos _ p)
          (overlay-file_write (block start content) (blocks_at path m) small (valid path).0
            (valid path).1 x)
    | no p ↦ rw (if_neg _ p, if_neg _ p)
  ])

  -- The path of `cached-write` that `m'` takes at its own file.
  cached-write_self :
      (x : ℕ)
      → cached m' path x
        ≡ or_else
            (overlay (above start (blocks_at path m)) x)
            (or_else (byte_at (block start content) x) (cached m path x))
  cached-write_self x = cached-write path x ∙ if_pos (paths.equal path path) refl _ _

  -- Where no cached block starts strictly inside the written range, the cache holds the new bytes
  -- in the range, and every byte outside it as before.
  pub cached-write_clear :
      (x : ℕ)
      → IsClear (block start content) (blocks_at path m)
      → cached m' path x ≡ or_else (byte_at (block start content) x) (cached m path x)
  cached-write_clear x c =
      cached-write_self x
      ∙ overlay-above-IsClear (block start content) 0 (blocks_at path m) x
          (Separated-Ascending 0 (blocks_at path m) (valid path).0) c

  -- After a write that returns, on a valid cache, to a range that ends below 2 ^ 64, a byte in a
  -- block that starts behind the start of the written range keeps its old value, also where the
  -- write covers it.
  pub cached-write_stale :
      (x v : ℕ)
      → overlay (above start (blocks_at path m)) x ≡ some v
      → (cached m path x ≡ some v) × (cached m' path x ≡ some v)
  cached-write_stale x v e = (
    sym (
          overlay-above start 0 (blocks_at path m) x
            (Separated-Ascending 0 (blocks_at path m) (valid path).0))
        ∙ rw e,
    cached-write_self x ∙ rw e,
  )

module _ {P : Type 0} ⦃paths : Paths P⦄ (path : P) (m : Content P) where
  -- `delete_file` forgets every byte of its file, and no byte of another.
  pub cached-delete_file :
      (q : P) (x : ℕ)
      → cached (delete_file path m) q x ≡ ite (paths.equal path q) none (cached m q x)
  unfolding delete_file blocks_at overlay
  cached-delete_file q x = ground (arith, find-erase paths.equal path q m)

  pub delete_file-IsValid : IsValid m → IsValid (delete_file path m)
  unfolding delete_file blocks_at
  delete_file-IsValid valid q = ground (arith, find-erase paths.equal path q m, valid q)
