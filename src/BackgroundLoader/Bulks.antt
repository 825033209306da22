-- ===== src/BackgroundLoader/Bulks.antt =====
-- How the loader gathers the blocks of the files into bulks.
use rewofs.Base.{
  ℕ, zero, suc, ◌+◌, ◌≤◌, ◌<◌, ◌≡◌, refl, sym, ap, ◌∙◌, true, false, List, [], ◌∷◌, ◌++◌, ltb, leb,
  append_assoc, Bool-cases, inl, inr, arith,
}
use rewofs.Base.Paths.{Paths}
use rewofs.Base.Result.{Result, ok, raise}
use rewofs.Cache.{Cache}
use rewofs.Vfs.Call.{Action, then_call}
use rewofs.Content.{add64}
use rewofs.RemoteVfs.{io_fragment_size}
use rewofs.BackgroundLoader.Preload.{
  Block, FileInfo, Prereads, file_blocks, blocks_of, all_blocks, bulk_size, send_blocks,
  wait_for_mids,
}
use rewofs.BackgroundLoader.Fragments.{SizesFit, all_fragments, all_blocks-all_fragments}

abbrev pub total : {P : Type 0} → List (Block P) → ℕ
total [] = 0
total (b ∷ bs) = b.size + total bs

abbrev pub concat : {A : Type 0} → List (List A) → List A
concat [] = []
concat (x ∷ xs) = x ++ concat xs

abbrev AreSmall : {P : Type 0} → List (Block P) → Type 0
AreSmall [] = Unit
AreSmall (b ∷ bs) = (b.size ≤ io_fragment_size) × AreSmall bs

-- Every bulk, with the one that ends the loop, has less than a fragment over BULK_SIZE.
abbrev pub AreBounded : {P : Type 0} → List (List (Block P)) → Type 0
AreBounded [] = Unit
AreBounded (bulk ∷ bulks) = (total bulk < bulk_size + io_fragment_size) × AreBounded bulks

-- The bulks: a bulk is full with the block that makes it as large as BULK_SIZE.
pub bulks : {P : Type 0} → List (Block P) → List (Block P) → ℕ → List (List (Block P))
bulks [] bulk size_counter = bulk ∷ []
bulks (b ∷ bs) bulk size_counter = elim (leb bulk_size (size_counter + b.size)) [
  | true ↦ (bulk ++ b ∷ []) ∷ bulks bs [] 0
  | false ↦ bulks bs (bulk ++ b ∷ []) (size_counter + b.size)
]

bulks-full :
    {P : Type 0} (b : Block P) (bs bulk : List (Block P)) (n : ℕ)
    → leb bulk_size (n + b.size) ≡ true
    → bulks (b ∷ bs) bulk n ≡ (bulk ++ b ∷ []) ∷ bulks bs [] 0
unfolding bulks
bulks-full b bs bulk n e = rw (e, bulks)

bulks-more :
    {P : Type 0} (b : Block P) (bs bulk : List (Block P)) (n : ℕ)
    → leb bulk_size (n + b.size) ≡ false
    → bulks (b ∷ bs) bulk n ≡ bulks bs (bulk ++ b ∷ []) (n + b.size)
unfolding bulks
bulks-more b bs bulk n e = rw (e, bulks)

total-append : {P : Type 0} (xs ys : List (Block P)) → total (xs ++ ys) ≡ total xs + total ys
total-append [] ys = omega arith
total-append (x ∷ xs) ys = omega (arith, total-append xs ys)

concat-bulks :
    {P : Type 0} (bs bulk : List (Block P)) (n : ℕ) → concat (bulks bs bulk n) ≡ bulk ++ bs
unfolding bulks
concat-bulks [] bulk n = refl
concat-bulks (b ∷ bs) bulk n = elim (Bool-cases (leb bulk_size (n + b.size))) [
  | inl e ↦ rw (bulks-full b bs bulk n e) (
      ap (λ (r : List (Block _)). (bulk ++ b ∷ []) ++ r) (concat-bulks bs [] 0)
      ∙ append_assoc bulk (b ∷ []) bs)
  | inr e ↦
      rw (bulks-more b bs bulk n e)
        (concat-bulks bs (bulk ++ b ∷ []) (n + b.size) ∙ append_assoc bulk (b ∷ []) bs)
]

bulks-AreBounded :
    {P : Type 0} (bs bulk : List (Block P)) (n : ℕ)
    → AreSmall bs
    → total bulk ≡ n
    → n < bulk_size
    → AreBounded (bulks bs bulk n)
unfolding bulks
bulks-AreBounded [] bulk n s e h = (omega arith, tt)
bulks-AreBounded (b ∷ bs) bulk n s e h = elim (Bool-cases (leb bulk_size (n + b.size))) [
  | inl k ↦
      rw (bulks-full b bs bulk n k)
        (omega (arith, total-append bulk (b ∷ [])), bulks-AreBounded bs [] 0 s.1 refl (omega arith))
  | inr k ↦ rw (bulks-more b bs bulk n k) (
      bulks-AreBounded bs (bulk ++ b ∷ []) (n + b.size) s.1
        (omega (arith, total-append bulk (b ∷ []))) (ground arith))
]

module _ {P T : Type 0} ⦃paths : Paths P⦄ (comm : Prereads P T) where
  abbrev send_all : List (Block P) → T → List ℕ × T
  send_all [] t = ([], t)
  send_all (b ∷ bs) t =
      let r = comm.add_command b t in let rest = send_all bs r.1 in (r.0 ∷ rest.0, rest.1)

  -- One bulk after the other: all its blocks are asked for, then all its answers waited for.
  abbrev pub in_bulks : List (List (Block P)) → Action (Cache P × T) (Unit {0})
  in_bulks [] s = (ok tt, s)
  in_bulks (bulk ∷ rest) s =
      let sent = send_all bulk s.1 in
      then_call (wait_for_mids comm sent.0 (s.0, sent.1)) (λ u. in_bulks rest)

  send_all-snoc :
      (bs : List (Block P)) (b : Block P) (t : T)
      → send_all (bs ++ b ∷ []) t ≡ (
        (send_all bs t).0 ++ (comm.add_command b (send_all bs t).1).0 ∷ [],
        (comm.add_command b (send_all bs t).1).1,
      )
  send_all-snoc [] b t = refl
  send_all-snoc (x ∷ bs) b t =
      ap (λ (r : List ℕ × T). ((comm.add_command x t).0 ∷ r.0, r.1))
        (send_all-snoc bs b (comm.add_command x t).1)

  then_call_return : (r : Result (Unit {0}) × (Cache P × T)) → then_call r (λ u s. (ok tt, s)) ≡ r
  then_call_return (ok u, s) = refl
  then_call_return (raise e, s) = refl

  then_call_ext :
      (r : Result (Unit {0}) × (Cache P × T)) (f g : Unit {0} → Action (Cache P × T) (Unit {0}))
      → ((u : Unit {0}) (s : Cache P × T) → f u s ≡ g u s)
      → then_call r f ≡ then_call r g
  then_call_ext (ok u, s) f g h = h u s
  then_call_ext (raise e, s) f g h = refl

  send_blocks-in_bulks :
      (bs bulk : List (Block P)) (n : ℕ) (c : Cache P) (t : T)
      → send_blocks comm bs (send_all bulk t).0 n (c, (send_all bulk t).1)
        ≡ in_bulks (bulks bs bulk n) (c, t)
  unfolding send_blocks bulks
  send_blocks-in_bulks [] bulk n c t =
      sym (then_call_return (wait_for_mids comm (send_all bulk t).0 (c, (send_all bulk t).1)))
  send_blocks-in_bulks (b ∷ bs) bulk n c t = elim (Bool-cases (leb bulk_size (n + b.size))) [
    | inl e ↦
        rw (bulks-full b bs bulk n e, send_blocks, e, send_all-snoc bulk b t)
          (then_call_ext
            (wait_for_mids comm
              ((send_all bulk t).0 ++ (comm.add_command b (send_all bulk t).1).0 ∷ [])
              (c, (comm.add_command b (send_all bulk t).1).1))
            (λ u s. send_blocks comm bs [] 0 s) (λ u s. in_bulks (bulks bs [] 0) s)
            (λ u s. send_blocks-in_bulks bs [] 0 s.0 s.1))
    | inr e ↦
        rw (bulks-more b bs bulk n e, send_blocks, e)
          (rw (send_all-snoc bulk b t) at
            (send_blocks-in_bulks bs (bulk ++ b ∷ []) (n + b.size) c t))
  ]

blocks_of-AreSmall :
    {P : Type 0} (path : P) (fuel offset size : ℕ)
    → AreSmall (blocks_of path (file_blocks fuel offset size))
unfolding file_blocks
blocks_of-AreSmall path zero offset size = tt
blocks_of-AreSmall path (suc fuel) offset size = elim (Bool-cases (ltb offset size)) [
  | inl e ↦ rw e (omega arith, blocks_of-AreSmall path fuel (add64 offset io_fragment_size) size)
  | inr e ↦ rw e tt
]

AreSmall-append :
    {P : Type 0} (xs ys : List (Block P)) → AreSmall xs → AreSmall ys → AreSmall (xs ++ ys)
AreSmall-append [] ys h k = k
AreSmall-append (x ∷ xs) ys h k = (h.0, AreSmall-append xs ys h.1 k)

all_blocks-AreSmall : {P : Type 0} (files : List (FileInfo P)) → AreSmall (all_blocks files)
unfolding all_blocks
all_blocks-AreSmall [] = tt
all_blocks-AreSmall (f ∷ fs) =
    AreSmall-append (blocks_of f.path (file_blocks f.size 0 f.size)) (all_blocks fs)
      (blocks_of-AreSmall f.path f.size 0 f.size) (all_blocks-AreSmall fs)

module _ {P T : Type 0} ⦃paths : Paths P⦄ (comm : Prereads P T) where
  -- Where no file has a size of more than 2 ^ 64 - IO_FRAGMENT_SIZE, the loop of `preload_files_bulks` works
  -- in bulks, each asked for as a whole and waited for before the next: they hold every fragment of every
  -- file once and in order, and none has BULK_SIZE bytes and a fragment or more.
  pub send_blocks-bulks :
      (files : List (FileInfo P)) (c : Cache P) (t : T)
      → SizesFit files
      → let parts = bulks (all_blocks files) [] 0 in
        (send_blocks comm (all_blocks files) [] 0 (c, t) ≡ in_bulks comm parts (c, t))
        × (concat parts ≡ all_fragments files)
        × AreBounded parts
  send_blocks-bulks files c t fit = (
    send_blocks-in_bulks comm (all_blocks files) [] 0 c t,
    concat-bulks (all_blocks files) [] 0 ∙ all_blocks-all_fragments files fit,
    bulks-AreBounded (all_blocks files) [] 0 (all_blocks-AreSmall files) refl (omega arith),
  )
