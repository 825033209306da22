-- ===== src/Content/Join.antt =====
-- One round of the loop of `Content::flatten`: `join`, against what the two blocks hold.
use rewofs.Base.{
  ℕ, ◌+◌, ◌-◌, ◌≤◌, ◌≡◌, refl, ◌∙◌, max, List, none, length, get_elem?, get_elem?_past,
  get_elem?_within, leb, if◌then◌else◌, or_else, arith, replicate, length-replicate,
}
use rewofs.Content.{Block, copy_at, join}
use rewofs.Content.Blocks.{byte_at, end, length-copy_at, get_elem?-copy_at}

module _ (ac bc : List ℕ) (o : ℕ) where
  abbrev base : List ℕ
  base = copy_at ac 0 (replicate (max (length ac) (o + length bc)) 0)

  length-base : length base ≡ max (length ac) (o + length bc)
  length-base = length-copy_at ac 0 _ ∙ length-replicate _ 0

  get_elem?-joined :
      (i : ℕ)
      → o ≤ length ac
      → get_elem? (copy_at bc o base) i
        ≡ or_else (if leb o i then get_elem? bc (i - o) else none) (get_elem? ac i)
  get_elem?-joined i h = ground (
    arith,
    get_elem?-copy_at bc o base i,
    get_elem?-copy_at ac 0 (replicate (max (length ac) (o + length bc)) 0) i,
    length-base,
    length-replicate {A = ℕ} (max (length ac) (o + length bc)) 0,
    get_elem?_past (i - o) bc,
    get_elem?_within (i - o) bc,
    get_elem?_past i ac,
    get_elem?_past i (replicate {A = ℕ} (max (length ac) (o + length bc)) 0),
  )

module _ (a b : Block) (ordered : a.start ≤ b.start) (touching : b.start ≤ end a) where
  -- The joined block holds what the two held, the later one on top.
  pub byte_at-join : (x : ℕ) → byte_at (join a b) x ≡ or_else (byte_at b x) (byte_at a x)
  unfolding join
  byte_at-join x =
      ground (arith, get_elem?-joined a.content b.content (b.start - a.start) (x - a.start))

  pub end-join : end (join a b) ≡ max (end a) (end b)
  unfolding join
  end-join = ground (
    arith,
    length-copy_at b.content (b.start - a.start) (base a.content b.content (b.start - a.start)),
    length-base a.content b.content (b.start - a.start),
  )

pub start-join : (a b : Block) → (join a b).start ≡ a.start
unfolding join
start-join a b = refl
