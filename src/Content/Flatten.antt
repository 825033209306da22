-- ===== src/Content/Flatten.antt =====
-- The loop of `Content::flatten`: it keeps what a sorted list holds, and leaves separated blocks.
use rewofs.Base.{
  ℕ, ◌+◌, ◌≤◌, ◌<◌, ◌^◌, ◌≡◌, refl, List, [], ◌∷◌, length, or_else_assoc, arith, leb, ◌∙◌,
  Bool-cases, inl, inr, true,
}
use rewofs.Content.{Block, join, merge, add64}
use rewofs.Content.Blocks.{overlay, end, Ascending, Separated, Fits, Ascending-mono}
use rewofs.Content.Join.{byte_at-join, end-join, start-join}

add64_small : (a b : ℕ) → a + b < 2 ^ 64 → add64 a b ≡ a + b
add64_small a b h = omega arith

-- What `join` needs of the two blocks, and what the next round needs of the result.
join-ready :
    (it next : Block) (rest : List Block)
    → Ascending it.start (next ∷ rest)
    → Fits (it ∷ next ∷ rest)
    → leb next.start (add64 it.start (length it.content)) ≡ true
    → (next.start ≤ end it) × Ascending (join it next).start rest × Fits (join it next ∷ rest)
join-ready it next rest a f e =
    let touching : next.start ≤ end it = ground (arith, add64_small it.start (length it.content)) in
    (
      touching,
      rw start-join (Ascending-mono rest a.0 a.1),
      (omega (arith, end-join it next a.0 touching, f.0, f.1.0), f.1.1),
    )

pub overlay-merge :
    (it : Block) (rest : List Block)
    → Ascending it.start rest
    → Fits (it ∷ rest)
    → (x : ℕ) → overlay (merge it rest) x ≡ overlay (it ∷ rest) x
unfolding overlay merge
overlay-merge it [] a f x = refl
overlay-merge it (next ∷ rest) a f x =
    elim (Bool-cases (leb next.start (add64 it.start (length it.content)))) [
      | inl e ↦
          let (touching, a', f') = join-ready it next rest a f e in
          rw (e, merge)
            (overlay-merge (join it next) rest a' f' x
              ∙ rw (byte_at-join it next a.0 touching x, or_else_assoc))
      | inr e ↦ rw (e, merge) (rw (overlay-merge next rest a.1 f.1 x))
    ]

pub merge-Separated :
    (lo : ℕ) (it : Block) (rest : List Block)
    → lo ≤ it.start
    → Ascending it.start rest
    → Fits (it ∷ rest)
    → Separated lo (merge it rest)
unfolding merge
merge-Separated lo it [] h a f = (h, tt)
merge-Separated lo it (next ∷ rest) h a f = ground (
  arith,
  add64_small it.start (length it.content),
  start-join it next,
  end-join it next,
  Ascending-mono {lo = it.start} {hi = next.start} rest,
  merge-Separated lo (join it next) rest,
  merge-Separated (end it + 1) next rest,
)

pub merge-Fits :
    (it : Block) (rest : List Block)
    → Ascending it.start rest
    → Fits (it ∷ rest)
    → Fits (merge it rest)
unfolding merge
merge-Fits it [] a f = f
merge-Fits it (next ∷ rest) a f =
    elim (Bool-cases (leb next.start (add64 it.start (length it.content)))) [
      | inl e ↦
          let (_, a', f') = join-ready it next rest a f e in
          rw (e, merge) (merge-Fits (join it next) rest a' f')
      | inr e ↦ rw (e, merge) (f.0, merge-Fits next rest a.1 f.1)
    ]
