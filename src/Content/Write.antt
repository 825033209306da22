-- ===== src/Content/Write.antt =====
-- What `Content::write` does to the blocks of one file, in place or by a new block.
use rewofs.Base.{
  ℕ, ◌+◌, ◌-◌, ◌≤◌, ◌<◌, ◌^◌, ◌≡◌, refl, ◌∙◌, sym, List, [], ◌∷◌, ◌++◌, length, leb, or_else,
  or_else_assoc, arith, none, some, Option, dec_lt, inl, inr, Bool-cases, true, find_if,
  get_elem?_past, get_elem?_within, ◌⊎◌,
}
use rewofs.Content.{Block, holds, overwrite, copy_at, flatten_blocks}
use rewofs.Content.Blocks.{
  byte_at, byte_at_past, overlay, overlay_below, end, Ascending, Separated, Fits,
  Separated-Ascending, length-copy_at, get_elem?-copy_at,
}
use rewofs.Content.Placement.{above, above_all, sort-append, overlay-place, flatten_blocks_lem}

-- No block starts strictly inside the range of `n`.
abbrev pub IsClear : Block → List Block → Type 0
IsClear n [] = Unit
IsClear n (b ∷ bs) = ((b.start ≤ n.start) ⊎ (end n ≤ b.start)) × IsClear n bs

pub holds→range :
    (start size : ℕ) (b : Block)
    → start + size < 2 ^ 64
    → holds start size b ≡ true
    → (b.start ≤ start) × (start + size ≤ end b)
holds→range start size b small h = ground arith

-- A block and the blocks behind its end can change places.
overlay_aside :
    (n : Block) (bs : List Block) (under : Option ℕ) (x lo : ℕ)
    → end n ≤ lo
    → Ascending lo bs
    → or_else (overlay bs x) (or_else (byte_at n x) under)
      ≡ or_else (byte_at n x) (or_else (overlay bs x) under)
overlay_aside n bs under x lo h a = elim (dec_lt x (end n)) [
  | yes p ↦ rw (overlay_below x lo bs (omega arith) a)
  | no p ↦ rw (byte_at_past n x (omega arith))
]

module _ (n : Block) (small : end n < 2 ^ 64) where
  abbrev written : List Block → List Block
  written bs = overwrite n.start n.content bs

  byte_at-copy_at :
      (b : Block) (x : ℕ)
      → b.start ≤ n.start
      → end n ≤ end b
      → byte_at (record b { content = copy_at n.content (n.start - b.start) b.content }) x
        ≡ or_else (byte_at n x) (byte_at b x)
  byte_at-copy_at b x h k = ground (
    arith,
    get_elem?-copy_at n.content (n.start - b.start) b.content (x - b.start),
    get_elem?_past (x - n.start) n.content,
    get_elem?_within (x - n.start) n.content,
  )

  pub overwrite_shape :
      (lo : ℕ) (bs : List Block)
      → Separated lo bs
      → Fits bs
      → Separated lo (written bs) × Fits (written bs)
  unfolding overwrite
  overwrite_shape lo [] s f = (tt, tt)
  overwrite_shape lo (b ∷ bs) s f = ground (
    arith,
    length-copy_at n.content (n.start - b.start) b.content,
    overwrite_shape (end b + 1) bs s.1 f.1,
  )

  -- In place the new bytes are on top, and all others stay.
  pub overlay-overwrite :
      (lo : ℕ) (bs : List Block) (b : Block) (x : ℕ)
      → Separated lo bs
      → find_if (holds n.start (length n.content)) bs ≡ some b
      → overlay (written bs) x ≡ or_else (byte_at n x) (overlay bs x)
  unfolding overwrite overlay
  overlay-overwrite lo [] b x s e = cc
  overlay-overwrite lo (c ∷ bs) b x s e = elim (Bool-cases (holds n.start (length n.content) c)) [
    | inl h ↦
        let (low, high) = holds→range n.start (length n.content) c small h in
        rw h (
          rw (byte_at-copy_at c x low high) (
            overlay_aside n bs (byte_at c x) x (end c + 1) (omega arith)
              (Separated-Ascending (end c + 1) bs s.1)))
    | inr h ↦ rw h (
        rw (overlay-overwrite (end c + 1) bs b x s.1 (rw h at e))
          (or_else_assoc (byte_at n x) (overlay bs x) (byte_at c x)))
  ]

-- `write` where no block holds the range.
abbrev pub appended : Block → List Block → List Block
appended n bs = flatten_blocks (bs ++ n ∷ [])

append-Fits : (n : Block) (bs : List Block) → end n < 2 ^ 64 → Fits bs → Fits (bs ++ n ∷ [])
append-Fits n [] small f = (small, tt)
append-Fits n (b ∷ bs) small f = (f.0, append-Fits n bs small f.1)

above-IsClear :
    (n : Block) (bs : List Block) (x : ℕ) (lo : ℕ)
    → IsClear n bs
    → Ascending lo bs
    → x < end n
    → overlay (above n.start bs) x ≡ none
unfolding overlay
above-IsClear n [] x lo c a h = refl
above-IsClear n (b ∷ bs) x lo c a h = ground (arith, above-IsClear n bs x b.start c.1 a.1 h)

module _ (n : Block) (bs : List Block) (small : end n < 2 ^ 64) (s : Separated 0 bs)
    (f : Fits bs) where
  pub appended_shape : Separated 0 (appended n bs) × Fits (appended n bs)
  appended_shape =
      let (separated, fits, _) = flatten_blocks_lem (bs ++ n ∷ []) (append-Fits n bs small f) in
      (separated, fits)

  -- Blocks that start behind the new one stay on top of it.
  pub overlay-appended :
      (x : ℕ)
      → overlay (appended n bs) x
        ≡ or_else (overlay (above n.start bs) x) (or_else (byte_at n x) (overlay bs x))
  overlay-appended x =
      (flatten_blocks_lem (bs ++ n ∷ []) (append-Fits n bs small f)).2 x
      ∙ rw (sort-append 0 bs n (Separated-Ascending 0 bs s))
          (overlay-place 0 n bs x (Separated-Ascending 0 bs s))

pub overlay-above :
    (s lo : ℕ) (bs : List Block) (x : ℕ)
    → Ascending lo bs
    → or_else (overlay (above s bs) x) (overlay bs x) ≡ overlay bs x
unfolding overlay
overlay-above s lo [] x a = refl
overlay-above s lo (b ∷ bs) x a = elim (Bool-cases (leb b.start s)) [
  | inl e ↦ rw e (
      sym (or_else_assoc (overlay (above s bs) x) (overlay bs x) (byte_at b x))
      ∙ rw (overlay-above s b.start bs x a.1))
  | inr e ↦
      rw e (rw (above_all s b.start bs (ground arith) a.1) (or_else_self (overlay (b ∷ bs) x)))
]
  where
    or_else_self : (o : Option ℕ) → or_else o o ≡ o
    or_else_self none = refl
    or_else_self (some v) = refl

-- In a range where no block starts, none stays on top.
pub overlay-above-IsClear :
    (n : Block) (lo : ℕ) (bs : List Block) (x : ℕ)
    → Ascending lo bs
    → IsClear n bs
    → or_else (overlay (above n.start bs) x) (or_else (byte_at n x) (overlay bs x))
      ≡ or_else (byte_at n x) (overlay bs x)
overlay-above-IsClear n lo bs x a c = elim (dec_lt x (end n)) [
  | yes p ↦ rw (above-IsClear n bs x lo c a p)
  | no p ↦ rw (byte_at_past n x (omega arith)) (overlay-above n.start lo bs x a)
]

IsClear-after : (n : Block) (lo : ℕ) (bs : List Block) → end n ≤ lo → Ascending lo bs → IsClear n bs
IsClear-after n lo [] h a = tt
IsClear-after n lo (b ∷ bs) h a = (inr (omega arith), IsClear-after n b.start bs (omega arith) a.1)

found_low :
    (n : Block) (lo : ℕ) (bs : List Block) (b : Block)
    → end n < 2 ^ 64
    → Ascending lo bs
    → find_if (holds n.start (length n.content)) bs ≡ some b
    → lo ≤ n.start
found_low n lo [] b small a e = cc
found_low n lo (c ∷ bs) b small a e = elim (Bool-cases (holds n.start (length n.content) c)) [
  | inl h ↦ omega (arith, (holds→range n.start (length n.content) c small h).0)
  | inr h ↦ omega (arith, found_low n c.start bs b small a.1 (rw h at e))
]

-- No block starts inside a range that one block holds.
pub found-IsClear :
    (n : Block) (lo : ℕ) (bs : List Block) (b : Block)
    → end n < 2 ^ 64
    → Separated lo bs
    → find_if (holds n.start (length n.content)) bs ≡ some b
    → IsClear n bs
found-IsClear n lo [] b small s e = tt
found-IsClear n lo (c ∷ bs) b small s e = elim (Bool-cases (holds n.start (length n.content) c)) [
  | inl h ↦
      let (low, high) = holds→range n.start (length n.content) c small h in
      (
        inl low,
        IsClear-after n (end c + 1) bs (omega arith) (Separated-Ascending (end c + 1) bs s.1),
      )
  | inr h ↦ (
    inl (
        omega (
          arith,
          found_low n (end c + 1) bs b small (Separated-Ascending (end c + 1) bs s.1) (rw h at e),
        )),
    found-IsClear n (end c + 1) bs b small s.1 (rw h at e),
  )
]
