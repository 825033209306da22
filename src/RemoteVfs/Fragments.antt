-- ===== src/RemoteVfs/Fragments.antt =====
-- The fragments that `RemoteVfs::read` and `RemoteVfs::write` cut a range into.
use rewofs.Base.{
  ℕ, zero, suc, ◌+◌, ◌-◌, ◌≤◌, ◌<◌, ◌^◌, ◌≡◌, refl, ap, ◌∙◌, min, List, [], ◌∷◌, ◌++◌, take, drop,
  arith, Bool-cases, ltb, inl, inr,
}
use rewofs.Content.{add64}
use rewofs.RemoteVfs.{fragments, io_fragment_size}

-- Consecutive ranges from `lo` to `hi`, none empty and none larger than a fragment may be.
abbrev pub Tiles : ℕ → List (ℕ × ℕ) → ℕ → Type 0
Tiles lo [] hi = lo ≡ hi
Tiles lo ((ofs, size) ∷ rest) hi =
    (ofs ≡ lo) × (0 < size) × (size ≤ io_fragment_size) × Tiles (lo + size) rest hi

-- With fuel for every byte that is left, the loop ends with the range cut into consecutive fragments,
-- none empty and none larger than IO_FRAGMENT_SIZE.
pub fragments-Tiles :
    (fuel lo size : ℕ) → lo ≤ size → size - lo ≤ fuel → Tiles lo (fragments fuel lo size) size
unfolding fragments
fragments-Tiles zero lo size h k = omega arith
fragments-Tiles (suc fuel) lo size h k = elim (Bool-cases (ltb lo size)) [
  | inl e ↦
      let step : min (size - lo) io_fragment_size ≤ size - lo = omega arith in
      let more : 0 < min (size - lo) io_fragment_size = ground arith in
      rw e (
        refl,
        more,
        omega arith,
        fragments-Tiles fuel (lo + min (size - lo) io_fragment_size) size (omega arith)
            (omega arith),
      )
  | inr e ↦ rw e (ground arith)
]

-- The bytes of a file in the fragments, one behind the other.
abbrev pub joined : List ℕ → ℕ → List (ℕ × ℕ) → List ℕ
joined file offset [] = []
joined file offset ((ofs, size) ∷ rest) =
    take size (drop (add64 offset ofs) file) ++ joined file offset rest

pub Tiles-order : (lo hi : ℕ) (frags : List (ℕ × ℕ)) → Tiles lo frags hi → lo ≤ hi
Tiles-order lo hi [] t = omega (arith, t)
Tiles-order lo hi ((ofs, size) ∷ rest) t =
    let k : lo + size ≤ hi = Tiles-order (lo + size) hi rest t.3 in omega arith

take-nil : (n : ℕ) → take {A = ℕ} n [] ≡ []
take-nil zero = refl
take-nil (suc n) = refl

drop-nil : (n : ℕ) → drop {A = ℕ} n [] ≡ []
drop-nil zero = refl
drop-nil (suc n) = refl

pub take-drop_next :
    (a b o : ℕ) (file : List ℕ)
    → take a (drop o file) ++ take b (drop (o + a) file) ≡ take (a + b) (drop o file)
take-drop_next zero b o file =
    let e : o + 0 ≡ o = omega arith in let f : 0 + b ≡ b = omega arith in rw (e, f) refl
take-drop_next (suc a) b zero [] = rw (drop-nil (0 + suc a), take-nil b, take-nil (suc a + b)) refl
take-drop_next (suc a) b zero (x ∷ file) =
    let e : suc a + b ≡ suc (a + b) = omega arith in
    let f : zero + suc a ≡ suc a = omega arith in
    let g : zero + a ≡ a = omega arith in
    rw (e, f) (ap (λ (r : List ℕ). x ∷ r) (rw g at (take-drop_next a b zero file)))
take-drop_next (suc a) b (suc o) [] =
    rw (drop-nil (suc o + suc a), take-nil b, take-nil (suc a + b)) refl
take-drop_next (suc a) b (suc o) (x ∷ file) =
    let e : suc o + suc a ≡ suc (o + suc a) = omega arith in rw e (take-drop_next (suc a) b o file)

-- Over a range whose end does not wrap, the fragments' bytes are those of the range.
pub joined_lem :
    (file : List ℕ) (offset lo hi : ℕ) (frags : List (ℕ × ℕ))
    → Tiles lo frags hi
    → offset + hi < 2 ^ 64
    → joined file offset frags ≡ take (hi - lo) (drop (offset + lo) file)
joined_lem file offset lo hi [] t small = let e : hi - lo ≡ 0 = omega (arith, t) in rw e refl
joined_lem file offset lo hi ((ofs, size) ∷ rest) t small =
    let (same, z, big, more) = t in
    let last : lo + size ≤ hi = Tiles-order (lo + size) hi rest more in
    let whole : add64 offset ofs ≡ offset + lo = omega arith in
    let sum : size + (hi - (lo + size)) ≡ hi - lo = omega arith in
    let next : offset + (lo + size) ≡ offset + lo + size = omega arith in
    rw (whole, joined_lem file offset (lo + size) hi rest more small, next)
      (take-drop_next size (hi - (lo + size)) (offset + lo) file ∙ rw sum refl)
