-- ===== src/Fuse/Readlink.antt =====
-- What the `readlink` callback writes into the buffer of FUSE.
use rewofs.Base.{
  bytes_of, ℕ, zero, suc, ◌≤◌, ◌<◌, ◌≡◌, refl, ap, ◌∙◌, List, [], ◌∷◌, String, some, length, take,
  get_elem?, min, ltb, true, false, arith,
}
use rewofs.Base.Result.{ok, raise, undefined}
use rewofs.Content.{copy_at}
use rewofs.Content.Blocks.{length-copy_at}
use rewofs.Vfs.{Vfs}
use rewofs.Fuse.{readlink, assign, with_target, gen_return_error_code}

lt→ltb : (a b : ℕ) → a < b → ltb a b ≡ true
lt→ltb a b h = ground arith

ltb_self : (a : ℕ) → ltb a a ≡ false
ltb_self a = ground arith

-- The buffer with the target and the 0 behind it.
abbrev filled : List ℕ → List ℕ → List ℕ
filled w dst = copy_at (0 ∷ []) (length w) (copy_at w 0 dst)

take-filled : (w dst : List ℕ) → length w < length dst → take (length w) (filled w dst) ≡ w
unfolding copy_at
take-filled [] dst h = refl
take-filled (x ∷ w) [] h = elim h [ ]
take-filled (x ∷ w) (y ∷ dst) h = ap (λ (r : List ℕ). x ∷ r) (take-filled w dst (omega arith))

get_elem?-filled :
    (w dst : List ℕ) → length w < length dst → get_elem? (filled w dst) (length w) ≡ some 0
unfolding copy_at
get_elem?-filled [] [] h = elim h [ ]
get_elem?-filled [] (y ∷ dst) h = refl
get_elem?-filled (x ∷ w) [] h = elim h [ ]
get_elem?-filled (x ∷ w) (y ∷ dst) h = get_elem?-filled w dst (omega arith)

length-filled : (w dst : List ℕ) → length (filled w dst) ≡ length dst
length-filled w dst = length-copy_at (0 ∷ []) (length w) (copy_at w 0 dst) ∙ length-copy_at w 0 dst

take_all : (n : ℕ) (w : List ℕ) → length w ≤ n → take n w ≡ w
take_all zero [] h = refl
take_all (suc n) [] h = refl
take_all zero (x ∷ w) h = elim h [ ]
take_all (suc n) (x ∷ w) h = ap (λ (r : List ℕ). x ∷ r) (take_all n w (omega arith))

fits :
    (target : String) (dst : List ℕ)
    → length (bytes_of target) < length dst
    → with_target target dst (length dst) ≡ ok (0, filled (bytes_of target) dst)
unfolding with_target assign
fits target dst h =
    let w : List ℕ = bytes_of target in
    let k : min (length dst) (length w) ≡ length w = omega arith in
    rw (
      k,
      with_target,
      assign,
      take_all (length w) w (omega arith),
      length-copy_at w 0 dst,
      lt→ltb (length w) (length dst) h,
    )

overruns :
    (target : String) (dst : List ℕ)
    → length dst ≤ length (bytes_of target)
    → with_target target dst (length dst) ≡ raise undefined
unfolding with_target assign
overruns target dst h =
    let w : List ℕ = bytes_of target in
    let k : min (length dst) (length w) ≡ length dst = omega arith in
    rw (k, with_target, assign, length-copy_at (take (length dst) w) 0 dst, ltb_self (length dst))

module _ {P S : Type 0} (vfs : Vfs P S) where
  -- With a buffer of `sz` bytes: a target of fewer bytes is copied and a 0 put behind it; with any longer
  -- one the 0 is written behind the end of the buffer, which is not defined.
  pub readlink_lem :
      (path : P) (target : String) (dst : List ℕ) (s s' : S)
      → vfs.readlink path s ≡ (ok target, s')
      → (length (bytes_of target) < length dst
          → (d : List ℕ) × (readlink vfs path dst (length dst) s ≡ (ok (0, d), s'))
            × (length d ≡ length dst)
            × (take (length (bytes_of target)) d ≡ bytes_of target)
            × (get_elem? d (length (bytes_of target)) ≡ some 0))
        × (length dst ≤ length (bytes_of target)
            → readlink vfs path dst (length dst) s ≡ (raise undefined, s'))
  unfolding readlink gen_return_error_code
  readlink_lem path target dst s s' e =
      let w : List ℕ = bytes_of target in
      (
        λ h. (
          filled w dst,
          rw (e, fits target dst h),
          length-filled w dst,
          take-filled w dst h,
          get_elem?-filled w dst h,
        ),
        λ h. rw (e, overruns target dst h),
      )
