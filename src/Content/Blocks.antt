-- ===== src/Content/Blocks.antt =====
-- What a list of blocks of one file holds, byte by byte, and the shapes of such lists.
use rewofs.Base.{
  ℕ, zero, suc, ◌+◌, ◌-◌, ◌≤◌, ◌<◌, ◌^◌, ◌≡◌, refl, ap, ◌&&◌, List, [], ◌∷◌, Option, none, length,
  get_elem?, get_elem?_past, ltb, leb, if◌then◌else◌, or_else, arith,
}
use rewofs.Content.{Block, copy_at, overwrite_front}

-- The byte of the file at offset `x`, if the block holds it.
abbrev pub byte_at : Block → ℕ → Option ℕ
byte_at b x = if leb b.start x then get_elem? b.content (x - b.start) else none

-- The byte at `x` in a list of blocks, each of which hides those before it.
unfoldable pub overlay : List Block → ℕ → Option ℕ
overlay [] x = none
overlay (b ∷ bs) x = or_else (overlay bs x) (byte_at b x)

abbrev pub end : Block → ℕ
end b = b.start + length b.content

-- Sorted by start, none below `lo`.
abbrev pub Ascending : ℕ → List Block → Type 0
Ascending lo [] = Unit
Ascending lo (b ∷ bs) = (lo ≤ b.start) × Ascending b.start bs

-- Sorted, with a gap of at least one byte between any two blocks: what `flatten` leaves.
abbrev pub Separated : ℕ → List Block → Type 0
Separated lo [] = Unit
Separated lo (b ∷ bs) = (lo ≤ b.start) × Separated (end b + 1) bs

-- Every block ends below 2 ^ 64, so that no sum wraps.
abbrev pub Fits : List Block → Type 0
Fits [] = Unit
Fits (b ∷ bs) = (end b < 2 ^ 64) × Fits bs

pub Ascending-mono : {lo hi : ℕ} (bs : List Block) → lo ≤ hi → Ascending hi bs → Ascending lo bs
Ascending-mono [] h a = tt
Ascending-mono (b ∷ bs) h a = (omega arith, a.1)

Separated-mono : {lo hi : ℕ} (bs : List Block) → lo ≤ hi → Separated hi bs → Separated lo bs
Separated-mono [] h a = tt
Separated-mono (b ∷ bs) h a = (omega arith, a.1)

pub Separated-Ascending : (lo : ℕ) (bs : List Block) → Separated lo bs → Ascending lo bs
Separated-Ascending lo [] s = tt
Separated-Ascending lo (b ∷ bs) s =
    (s.0, Ascending-mono bs (omega arith) (Separated-Ascending (end b + 1) bs s.1))

pub byte_at_past : (b : Block) (x : ℕ) → end b ≤ x → byte_at b x ≡ none
byte_at_past b x h = ground (arith, get_elem?_past (x - b.start) b.content)

pub overlay_below : (x lo : ℕ) (bs : List Block) → x < lo → Ascending lo bs → overlay bs x ≡ none
unfolding overlay
overlay_below x lo [] h a = refl
overlay_below x lo (b ∷ bs) h a = ground (arith, overlay_below x b.start bs)

length-overwrite_front : (src dst : List ℕ) → length (overwrite_front src dst) ≡ length dst
length-overwrite_front [] dst = refl
length-overwrite_front (s ∷ src) [] = refl
length-overwrite_front (s ∷ src) (d ∷ dst) = ap suc (length-overwrite_front src dst)

pub length-copy_at : (src : List ℕ) (o : ℕ) (dst : List ℕ) → length (copy_at src o dst) ≡ length dst
unfolding copy_at
length-copy_at src zero dst = length-overwrite_front src dst
length-copy_at src (suc o) [] = refl
length-copy_at src (suc o) (d ∷ dst) = ap suc (length-copy_at src o dst)

get_elem?-overwrite_front :
    (src dst : List ℕ) (i : ℕ)
    → length src ≤ length dst
    → get_elem? (overwrite_front src dst) i
      ≡ (if ltb i (length src) then get_elem? src i else get_elem? dst i)
get_elem?-overwrite_front [] dst i h = ground arith
get_elem?-overwrite_front (s ∷ src) [] i h = elim h [ ]
get_elem?-overwrite_front (s ∷ src) (d ∷ dst) zero h = ground arith
get_elem?-overwrite_front (s ∷ src) (d ∷ dst) (suc i) h =
    ground (arith, get_elem?-overwrite_front src dst i)

-- A copy that fits changes its range, and nothing else.
pub get_elem?-copy_at :
    (src : List ℕ) (o : ℕ) (dst : List ℕ) (i : ℕ)
    → o + length src ≤ length dst
    → get_elem? (copy_at src o dst) i
      ≡ (if leb o i && ltb i (o + length src) then get_elem? src (i - o) else get_elem? dst i)
unfolding copy_at
get_elem?-copy_at src zero dst i h = ground (arith, get_elem?-overwrite_front src dst i)
get_elem?-copy_at src (suc o) [] i h = absurd (omega arith)
get_elem?-copy_at src (suc o) (d ∷ dst) zero h = ground arith
get_elem?-copy_at src (suc o) (d ∷ dst) (suc i) h = ground (arith, get_elem?-copy_at src o dst i)
