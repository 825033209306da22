-- ===== src/Content/Placement.antt =====
-- The stable sort in `Content::flatten`, and where it puts the block that `write` has appended.
use rewofs.Base.{
  ℕ, ◌≤◌, ◌<◌, ◌≡◌, refl, List, [], ◌∷◌, ◌++◌, leb, or_else, or_else_assoc, or_else-none,
  or_else_absorb, sym, arith, if◌then◌else◌, inl, inr, Bool-cases,
}
use rewofs.Content.{Block, insert, sort, merge_all, flatten_blocks}
use rewofs.Content.Blocks.{byte_at, overlay, Ascending, Separated, Fits}
use rewofs.Content.Flatten.{overlay-merge, merge-Separated, merge-Fits}

-- Before the first block that starts behind it.
abbrev pub place : Block → List Block → List Block
place n [] = n ∷ []
place n (b ∷ bs) = if leb b.start n.start then b ∷ place n bs else n ∷ b ∷ bs

-- The blocks that start behind `s`.
abbrev pub above : ℕ → List Block → List Block
above s [] = []
above s (b ∷ bs) = if leb b.start s then above s bs else b ∷ above s bs

insert_front : (b : Block) (bs : List Block) → Ascending b.start bs → insert b bs ≡ b ∷ bs
unfolding insert
insert_front b [] a = refl
insert_front b (c ∷ cs) a = ground arith

-- A sorted list with one block behind it: the sort is one insertion.
pub sort-append :
    (lo : ℕ) (bs : List Block) (n : Block) → Ascending lo bs → sort (bs ++ n ∷ []) ≡ place n bs
unfolding sort insert
sort-append lo [] n a = refl
sort-append lo (b ∷ bs) n a = rw (sort-append b.start bs n a.1) (insert-place b bs n a.1)
  where
    insert-place :
        (b : Block) (bs : List Block) (n : Block)
        → Ascending b.start bs
        → insert b (place n bs) ≡ place n (b ∷ bs)
    insert-place b [] n a = ground arith
    insert-place b (c ∷ cs) n a = ground (arith, insert_front b (c ∷ cs) a)

pub above_all : (s lo : ℕ) (bs : List Block) → s < lo → Ascending lo bs → above s bs ≡ bs
above_all s lo [] h a = refl
above_all s lo (b ∷ bs) h a = ground (arith, above_all s b.start bs)

-- What is held after the placement: blocks that start behind the new one hide it.
pub overlay-place :
    (lo : ℕ) (n : Block) (bs : List Block) (x : ℕ)
    → Ascending lo bs
    → overlay (place n bs) x
      ≡ or_else (overlay (above n.start bs) x) (or_else (byte_at n x) (overlay bs x))
unfolding overlay
overlay-place lo n [] x a = rw or_else-none
overlay-place lo n (b ∷ bs) x a = elim (Bool-cases (leb b.start n.start)) [
  | inl e ↦ rw (e, overlay-place b.start n bs x a.1) (rw (or_else_assoc, or_else_assoc))
  | inr e ↦ rw e (
      rw (above_all n.start b.start bs (ground arith) a.1)
        (sym (or_else_absorb (overlay (b ∷ bs) x) (byte_at n x))))
]

insert-Ascending :
    (lo : ℕ) (b : Block) (bs : List Block)
    → lo ≤ b.start
    → Ascending lo bs
    → Ascending lo (insert b bs)
unfolding insert
insert-Ascending lo b [] h a = (h, tt)
insert-Ascending lo b (c ∷ cs) h a = ground (arith, insert-Ascending c.start b cs)

sort-Ascending : (bs : List Block) → Ascending 0 (sort bs)
unfolding sort
sort-Ascending [] = tt
sort-Ascending (b ∷ bs) = insert-Ascending 0 b (sort bs) (omega arith) (sort-Ascending bs)

insert-Fits : (b : Block) (bs : List Block) → Fits (b ∷ bs) → Fits (insert b bs)
unfolding insert
insert-Fits b [] f = f
insert-Fits b (c ∷ cs) f = ground (arith, insert-Fits b cs)

sort-Fits : (bs : List Block) → Fits bs → Fits (sort bs)
unfolding sort
sort-Fits [] f = tt
sort-Fits (b ∷ bs) f = insert-Fits b (sort bs) (f.0, sort-Fits bs f.1)

merge_all_lem :
    (bs : List Block)
    → Ascending 0 bs
    → Fits bs
    → Separated 0 (merge_all bs)
      × Fits (merge_all bs)
      × ((x : ℕ) → overlay (merge_all bs) x ≡ overlay bs x)
merge_all_lem [] a f = (tt, tt, λ x. refl)
merge_all_lem (b ∷ bs) a f =
    (merge-Separated 0 b bs a.0 a.1 f, merge-Fits b bs a.1 f, λ x. overlay-merge b bs a.1 f x)

flatten_blocks-merge_all : (bs : List Block) → flatten_blocks bs ≡ merge_all (sort bs)
unfolding flatten_blocks
flatten_blocks-merge_all [] = refl
flatten_blocks-merge_all (b ∷ []) = refl
flatten_blocks-merge_all (b ∷ c ∷ bs) = ground arith

-- Of any blocks, unsorted and overlapping, `flatten` makes separated ones that hold the same as the
-- blocks sorted by start, a later one on top.
pub flatten_blocks_lem :
    (bs : List Block)
    → Fits bs
    → Separated 0 (flatten_blocks bs)
      × Fits (flatten_blocks bs)
      × ((x : ℕ) → overlay (flatten_blocks bs) x ≡ overlay (sort bs) x)
flatten_blocks_lem bs f =
    rw flatten_blocks-merge_all (merge_all_lem (sort bs) (sort-Ascending bs) (sort-Fits bs f))
