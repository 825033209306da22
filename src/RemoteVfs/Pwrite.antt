-- ===== src/RemoteVfs/Pwrite.antt =====
-- What a server's `pwrite` makes of a file.
use rewofs.Base.{
  ℕ, zero, suc, ◌+◌, ◌-◌, ◌≤◌, ◌≡◌, refl, ap, ◌∙◌, List, [], ◌∷◌, ◌++◌, length, take, drop, arith,
  length-take, length-drop,
}
use rewofs.RemoteVfs.Fragments.{take-drop_next}

-- What `pwrite` makes of a file: the bytes over those that are there, zeros between its end and the
-- offset, and no change where there is nothing to write.
unfoldable pub put_at : List ℕ → ℕ → List ℕ → List ℕ
put_at [] n file = file
put_at (x ∷ xs) zero [] = x ∷ put_at xs zero []
put_at (x ∷ xs) zero (y ∷ file) = x ∷ put_at xs zero file
put_at (x ∷ xs) (suc n) [] = 0 ∷ put_at (x ∷ xs) n []
put_at (x ∷ xs) (suc n) (y ∷ file) = y ∷ put_at (x ∷ xs) n file

put_at-cons :
    (c : List ℕ) (n x : ℕ) (file : List ℕ) → put_at c (suc n) (x ∷ file) ≡ x ∷ put_at c n file
unfolding put_at
put_at-cons [] n x file = refl
put_at-cons (d ∷ c) n x file = refl

behind :
    (c : List ℕ) (m n x : ℕ) (file after : List ℕ)
    → m ≡ suc n
    → put_at c n file ≡ after
    → put_at c m (x ∷ file) ≡ x ∷ after
behind c m n x file after e h =
    ap (λ (i : ℕ). put_at c i (x ∷ file)) e ∙ put_at-cons c n x file ∙ ap (λ (r : List ℕ). x ∷ r) h

-- Two writes, the second behind the first, are one write of both.
put_at-append :
    (b c : List ℕ) (n : ℕ) (file : List ℕ)
    → put_at c (n + length b) (put_at b n file) ≡ put_at (b ++ c) n file
unfolding put_at
put_at-append [] c n file = let e : n + 0 ≡ n = omega arith in rw e refl
put_at-append (x ∷ b) c zero [] =
    behind c (0 + suc (length b)) (0 + length b) x (put_at b 0 []) (put_at (b ++ c) 0 [])
      (omega arith) (put_at-append b c zero [])
put_at-append (x ∷ b) c zero (y ∷ file) =
    behind c (0 + suc (length b)) (0 + length b) x (put_at b 0 file) (put_at (b ++ c) 0 file)
      (omega arith) (put_at-append b c zero file)
put_at-append (x ∷ b) c (suc n) [] =
    behind c (suc n + suc (length b)) (n + suc (length b)) 0 (put_at (x ∷ b) n [])
      (put_at (x ∷ (b ++ c)) n []) (omega arith) (put_at-append (x ∷ b) c n [])
put_at-append (x ∷ b) c (suc n) (y ∷ file) =
    behind c (suc n + suc (length b)) (n + suc (length b)) y (put_at (x ∷ b) n file)
      (put_at (x ∷ (b ++ c)) n file) (omega arith) (put_at-append (x ∷ b) c n file)

pub take_all : (xs : List ℕ) → take (length xs) xs ≡ xs
take_all [] = refl
take_all (x ∷ xs) = ap (λ (r : List ℕ). x ∷ r) (take_all xs)

-- A fragment, and then the rest of the range behind it.
pub joined_writes :
    (n size hi offset : ℕ) (input file : List ℕ)
    → n + size ≤ hi
    → hi ≤ length input
    → put_at
        (take (hi - (n + size)) (drop (n + size) input))
        (offset + (n + size))
        (put_at (take size (drop n input)) (offset + n) file)
      ≡ put_at (take (hi - n) (drop n input)) (offset + n) file
joined_writes n size hi offset input file last fits =
    let b : List ℕ = take size (drop n input) in
    let c : List ℕ = take (hi - (n + size)) (drop (n + size) input) in
    let len : length b ≡ size =
      omega (arith, length-take size (drop n input), length-drop n input) in
    let place : offset + (n + size) ≡ offset + n + length b = omega (arith, len) in
    let all : size + (hi - (n + size)) ≡ hi - n = omega arith in
    ap (λ (o : ℕ). put_at c o (put_at b (offset + n) file)) place
    ∙ put_at-append b c (offset + n) file
    ∙ ap (λ (r : List ℕ). put_at r (offset + n) file)
        (take-drop_next size (hi - (n + size)) n input ∙ ap (λ (m : ℕ). take m (drop n input)) all)
