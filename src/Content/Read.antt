-- ===== src/Content/Read.antt =====
-- `Content::read`: what it hands to the callback, and when it finds the range.
use rewofs.Base.{
  ℕ, suc, ◌+◌, ◌-◌, ◌≤◌, ◌<◌, ◌^◌, ◌≡◌, ◌≢◌, refl, ◌∙◌, ap, sym, subst, List, [], ◌∷◌, length,
  arith, none, some, inl, inr, Option-cases, Bool-cases, find_if, true, false, le→leb, Bool, take,
  drop, get_elem?, get_elem?-take, get_elem?_within, get_elem?-drop, length-take, length-drop,
  dec_lt,
}
use mathlib.Core.Option.{some-injective, none-ne-some, some-ne-none}
use mathlib.Core.Option
use rewofs.Base.Paths.{Paths}
use rewofs.Base.Result.{ok}
use rewofs.Content.{Block, Content, holds, blocks_at, read, write}
use rewofs.Content.Blocks.{
  byte_at, byte_at_past, overlay, overlay_below, end, Ascending, Separated, Separated-Ascending,
  Ascending-mono,
}
use rewofs.Content.Write.{holds→range, IsClear}
use rewofs.Content.Contract.{cached, IsValid, block, write-IsValid, cached-write_clear}

module _ (start size : ℕ) (small : start + size < 2 ^ 64) where
  -- A block that holds the range is the one that counts in it.
  overlay_found :
      (lo : ℕ) (bs : List Block) (b : Block) (x : ℕ)
      → Separated lo bs
      → find_if (holds start size) bs ≡ some b
      → start ≤ x
      → x < start + size
      → (b.start ≤ start)
        × (start + size ≤ end b)
        × (overlay bs x ≡ get_elem? b.content (x - b.start))
  unfolding overlay
  overlay_found lo [] b x s e h k = cc
  overlay_found lo (c ∷ bs) b x s e h k = elim (Bool-cases (holds start size c)) [
    | inl t ↦
        let p : c ≡ b = some-injective c b (rw t at e) in
        let (low, high) = holds→range start size c small t in
        rw (← p) (
          low,
          high,
          rw (overlay_below x (end c + 1) bs (omega arith) (Separated-Ascending (end c + 1) bs s.1))
              (ground arith),
        )
    | inr t ↦
        let (low, high, same) = overlay_found (end c + 1) bs b x s.1 (rw t at e) h k in
        let (a, within) = get_elem?_within (x - b.start) b.content (omega arith) in
        (low, high, rw same (rw within))
  ]

  -- The block that no range fits in covers no byte of a range that is covered whole.
  byte_at_gap :
      (c : Block) (bs : List Block) (x : ℕ)
      → Separated (end c + 1) bs
      → ((y : ℕ) → start ≤ y → y < start + size → overlay (c ∷ bs) y ≢ none)
      → holds start size c ≡ false
      → start ≤ x
      → x < start + size
      → byte_at c x ≡ none
  unfolding overlay
  byte_at_gap c bs x s cover t h k = elim (dec_lt x c.start) [
    | yes before ↦ ground arith
    | no after ↦ elim (dec_lt x (end c)) [
      | no past ↦ byte_at_past c x (omega arith)
      | yes within ↦ elim (dec_lt start c.start) [
        | yes low ↦ absurd (
            cover start (omega arith) (omega arith)
              (overlay_below start c.start (c ∷ bs) low (omega arith, asc_tail)))
        | no high ↦ absurd (
            cover (end c) (omega arith) (ground arith) (
              rw (overlay_below (end c) (end c + 1) bs (omega arith) asc)
                (byte_at_past c (end c) (omega arith))))
      ]
    ]
  ]
    where
      asc : Ascending (end c + 1) bs
      asc = Separated-Ascending (end c + 1) bs s

      asc_tail : Ascending c.start bs
      asc_tail = Ascending-mono bs (omega arith) asc

  covered_found :
      (lo : ℕ) (bs : List Block)
      → 0 < size
      → Separated lo bs
      → ((y : ℕ) → start ≤ y → y < start + size → overlay bs y ≢ none)
      → (b : Block) × (find_if (holds start size) bs ≡ some b)
  unfolding overlay
  covered_found lo [] z s cover = absurd (cover start (omega arith) (omega arith) refl)
  covered_found lo (c ∷ bs) z s cover = elim (Bool-cases (holds start size c)) [
    | inl t ↦ (c, rw t)
    | inr t ↦ rw t (
        covered_found (end c + 1) bs z s.1
          λ y h k e. cover y h k (rw e (byte_at_gap c bs y s.1 cover t h k)))
  ]

find_if-true :
    (test : Block → Bool) (bs : List Block) (b : Block) → find_if test bs ≡ some b → test b ≡ true
find_if-true test [] b e = cc
find_if-true test (c ∷ bs) b e = elim (Bool-cases (test c)) [
  | inl t ↦ rw (← some-injective c b (rw t at e)) t
  | inr t ↦ find_if-true test bs b (rw t at e)
]

abbrev slice : ℕ → ℕ → Block → List ℕ
slice start size b = take size (drop (start - b.start) b.content)

-- Lists of one length that agree at every index are equal.
list_ext :
    (xs ys : List ℕ)
    → length xs ≡ length ys
    → ((i : ℕ) → i < length ys → get_elem? xs i ≡ get_elem? ys i)
    → xs ≡ ys
list_ext [] [] e h = refl
list_ext [] (y ∷ ys) e h = absurd (omega arith)
list_ext (x ∷ xs) [] e h = absurd (omega arith)
list_ext (x ∷ xs) (y ∷ ys) e h =
    let head : x ≡ y = some-injective x y (h 0 (omega arith)) in
    cc (list_ext xs ys (omega arith) (λ i k. h (suc i) (omega arith)))

module _ {P : Type 0} ⦃paths : Paths P⦄ where
  read_lem :
      (path : P) (start size : ℕ) (m : Content P)
      → read path start size m
        ≡ Option.map (slice start size) (find_if (holds start size) (blocks_at path m))
  unfolding read blocks_at
  read_lem path start size m = ground arith

module _ {P : Type 0} ⦃paths : Paths P⦄ (path : P) (start size : ℕ) (m : Content P)
    (valid : IsValid m) (small : start + size < 2 ^ 64) where
  -- On a valid cache and for a range that ends below 2 ^ 64, what a read hands to the callback is
  -- as long as was asked, and holds the cached bytes.
  pub read-cached :
      (bytes : List ℕ)
      → read path start size m ≡ some bytes
      → (length bytes ≡ size) × ((i : ℕ) → i < size → get_elem? bytes i ≡ cached m path (start + i))
  read-cached bytes e = elim (Option-cases (find_if (holds start size) (blocks_at path m))) [
    | inl f ↦ absurd (none-ne-some bytes (rw (read_lem path start size m, f) at e))
    | inr (b, f) ↦
        let same : slice start size b ≡ bytes =
          some-injective (slice start size b) bytes (rw (read_lem path start size m, f) at e) in
        let (low, high) =
          holds→range start size b small (find_if-true (holds start size) (blocks_at path m) b f) in
        rw (← same) (
          omega (
            arith,
            length-take size (drop (start - b.start) b.content),
            length-drop (start - b.start) b.content,
          ),
          λ i h.
              get_elem?-take size i (drop (start - b.start) b.content) h
              ∙ get_elem?-drop (start - b.start) i b.content
              ∙ ap (get_elem? b.content) (omega arith)
              ∙ sym
                  (overlay_found start size small 0 (blocks_at path m) b (start + i) (valid path).0
                    f (omega arith) (omega arith)).2,
        )
  ]

  -- On a valid cache, where the cache holds every byte of a range that is not empty and ends below
  -- 2 ^ 64, a read finds it.
  read_covered :
      0 < size
      → ((x : ℕ) → start ≤ x → x < start + size → cached m path x ≢ none)
      → (bytes : List ℕ) × (read path start size m ≡ some bytes)
  read_covered z cover =
      let (b, f) = covered_found start size small 0 (blocks_at path m) z (valid path).0 cover in
      (slice start size b, rw (read_lem path start size m, f))

module _ {P : Type 0} ⦃paths : Paths P⦄ (path : P) (start : ℕ) (content : List ℕ) (m m' : Content P)
    (valid : IsValid m) (small : start + length content < 2 ^ 64)
    (done : write path start content m ≡ ok m') where
  reached_IsValid : IsValid m'
  reached_IsValid =
      let (m'', done', v) = write-IsValid path start content m valid small in
      let e : m'' ≡ m' = cc in subst IsValid e v

  module _ (clear : IsClear (block start content) (blocks_at path m)) where
    -- In the written range the cache holds the new bytes.
    held_new : (i : ℕ) → i < length content → cached m' path (start + i) ≡ get_elem? content i
    held_new i h =
        let (a, w) = get_elem?_within i content h in
        cached-write_clear path start content m m' valid small done (start + i) clear
        ∙ rw (byte_at-block i, w)
      where
        byte_at-block : (i : ℕ) → byte_at (block start content) (start + i) ≡ get_elem? content i
        byte_at-block i =
            let e : start + i - start ≡ i = omega arith in
            rw (le→leb start (start + i) (omega arith), e)

    covered : (x : ℕ) → start ≤ x → x < start + length content → cached m' path x ≢ none
    covered x h k e =
        let (a, w) = get_elem?_within (x - start) content (omega arith) in
        let same : start + (x - start) ≡ x = omega arith in
        some-ne-none a (sym w ∙ sym (held_new (x - start) (omega arith)) ∙ rw same e)

    -- On a valid cache, a write that returns, to a range that is not empty, ends below 2 ^ 64 and
    -- has no cached block that starts strictly inside it, is read back as it was written.
    pub read-write : 0 < length content → read path start (length content) m' ≡ some content
    read-write z =
        let (bytes, e) =
          read_covered path start (length content) m' reached_IsValid small z covered in
        e ∙ ap some (agree bytes e)
      where
        agree :
            (bytes : List ℕ) → read path start (length content) m' ≡ some bytes → bytes ≡ content
        agree bytes e =
            let (len, same) =
              read-cached path start (length content) m' reached_IsValid small bytes e in
            list_ext bytes content len (λ i h. same i h ∙ held_new i h)
