-- ===== src/BackgroundLoader/Fragments.antt =====
-- The blocks that the loader cuts a file into are the fragments of a read.
use rewofs.Base.{
  ◌^◌, ℕ, zero, suc, ◌+◌, ◌-◌, ◌≤◌, ◌<◌, ◌≡◌, refl, sym, ap, ◌∙◌, min, false, List, [], ◌∷◌, ◌++◌,
  ltb, leb, Bool-cases, inl, inr, arith,
}
use rewofs.Content.{add64}
use rewofs.RemoteVfs.{fragments, io_fragment_size}
use rewofs.BackgroundLoader.Preload.{Block, FileInfo, file_blocks, blocks_of, all_blocks}

file_blocks_past : (fuel offset size : ℕ) → size ≤ offset → file_blocks fuel offset size ≡ []
unfolding file_blocks
file_blocks_past zero offset size h = refl
file_blocks_past (suc fuel) offset size h = let e : ltb offset size ≡ false = ground arith in rw e

-- An offset below the size does not wrap.
next :
    (fuel offset size : ℕ)
    → size + io_fragment_size ≤ 2 ^ 64
    → offset < size
    → file_blocks fuel (add64 offset io_fragment_size) size
      ≡ file_blocks fuel (offset + io_fragment_size) size
next fuel offset size small h =
    let e : add64 offset io_fragment_size ≡ offset + io_fragment_size = omega arith in
    ap (λ (o : ℕ). file_blocks fuel o size) e

fragments_past : (fuel offset size : ℕ) → size ≤ offset → fragments fuel offset size ≡ []
unfolding fragments
fragments_past zero offset size h = refl
fragments_past (suc fuel) offset size h = let e : ltb offset size ≡ false = ground arith in rw e

-- With fuel for each byte that is left, and a size of at most 2 ^ 64 - IO_FRAGMENT_SIZE, so that the offset
-- cannot wrap: the loop of the loader, which advances by a whole fragment, cuts a file as the loops of
-- `RemoteVfs::read` and `RemoteVfs::write` cut a range, which advance by what they take.
pub file_blocks-eq-fragments :
    (fuel offset size : ℕ)
    → size + io_fragment_size ≤ 2 ^ 64
    → size - offset ≤ fuel
    → file_blocks fuel offset size ≡ fragments fuel offset size
unfolding file_blocks fragments
file_blocks-eq-fragments zero offset size small h = refl
file_blocks-eq-fragments (suc fuel) offset size small h = elim (Bool-cases (ltb offset size)) [
  | inr e ↦ rw e
  | inl e ↦ elim (Bool-cases (leb io_fragment_size (size - offset))) [
    | inl k ↦
        let whole : min io_fragment_size (size - offset) ≡ io_fragment_size = ground arith in
        let same : min (size - offset) io_fragment_size ≡ io_fragment_size = ground arith in
        rw (e, whole, same)
          (ap (λ (r : List (ℕ × ℕ)). (offset, io_fragment_size) ∷ r)
            (next fuel offset size small (ground arith)
              ∙ file_blocks-eq-fragments fuel (offset + io_fragment_size) size small (omega arith)))
    | inr k ↦
        let last : min io_fragment_size (size - offset) ≡ size - offset = ground arith in
        let same : min (size - offset) io_fragment_size ≡ size - offset = ground arith in
        rw (e, last, same)
          (ap (λ (r : List (ℕ × ℕ)). (offset, size - offset) ∷ r)
            (next fuel offset size small (ground arith)
              ∙ file_blocks_past fuel (offset + io_fragment_size) size (ground arith)
              ∙ sym (fragments_past fuel (offset + (size - offset)) size (omega arith))))
  ]
]

-- The loop over each file comes to an end.
abbrev pub SizesFit : {P : Type 0} → List (FileInfo P) → Type 0
SizesFit [] = Unit
SizesFit (f ∷ fs) = (f.size + io_fragment_size ≤ 2 ^ 64) × SizesFit fs

-- All fragments of each file.
abbrev pub all_fragments : {P : Type 0} → List (FileInfo P) → List (Block P)
all_fragments [] = []
all_fragments (f ∷ fs) = blocks_of f.path (fragments f.size 0 f.size) ++ all_fragments fs

pub all_blocks-all_fragments :
    {P : Type 0} (files : List (FileInfo P))
    → SizesFit files
    → all_blocks files ≡ all_fragments files
unfolding all_blocks
all_blocks-all_fragments [] h = refl
all_blocks-all_fragments {P = P} (f ∷ fs) h =
    ap (λ (r : List (ℕ × ℕ)). blocks_of f.path r ++ all_blocks fs)
      (file_blocks-eq-fragments f.size 0 f.size h.0 (omega arith))
    ∙ ap (λ (r : List (Block P)). blocks_of f.path (fragments f.size 0 f.size) ++ r)
        (all_blocks-all_fragments fs h.1)
