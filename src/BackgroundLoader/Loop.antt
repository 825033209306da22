-- ===== src/BackgroundLoader/Loop.antt =====
-- The loop of `BackgroundLoader::tree_loader`, with other threads calling `invalidate_tree` and `stop`.
use rewofs.Base.{
  ℕ, suc, ◌+◌, ◌≤◌, ◌≡◌, ◌≢◌, refl, ap, ◌∙◌, Bool, true, false, List, [], ◌∷◌, ◌++◌, if◌then◌else◌,
  arith,
}
use rewofs.BackgroundLoader.{Loader, Phase, Event, step, steps, thread_turn}

-- Events without an invalidation, and events of the other threads only.
abbrev NoInvalidate : List Event → Type 0
NoInvalidate [] = Unit
NoInvalidate (Event.invalidate ∷ es) = ⊥
NoInvalidate (_ ∷ es) = NoInvalidate es

abbrev NoTurn : List Event → Type 0
NoTurn [] = Unit
NoTurn (Event.turn ∷ es) = ⊥
NoTurn (_ ∷ es) = NoTurn es

abbrev pub invalidations : List Event → ℕ
invalidations [] = 0
invalidations (Event.invalidate ∷ es) = suc (invalidations es)
invalidations (_ ∷ es) = invalidations es

abbrev pub begins : Event → Loader → ℕ
begins Event.turn s = elim s.phase [ Phase.waiting ↦ if s.tree_invalidated then 1 else 0 | _ ↦ 0 ]
begins _ s = 0

-- How many loads an interleaving begins.
unfoldable pub loads : List Event → Loader → ℕ
unfolding step
loads [] s = 0
loads (e ∷ es) s = begins e s + loads es (step e s)

-- A load that is asked for and not begun.
abbrev pub due : Loader → ℕ
due s = begins Event.turn s

-- A loader that sleeps, and whose tree is valid, sleeps on through any calls of `stop`: it does not end
-- before the tree is invalidated once more.
pub steps-stop :
    (es : List Event) (s : Loader)
    → NoInvalidate es
    → s.phase ≡ Phase.waiting
    → s.tree_invalidated ≡ false
    → (steps es s).phase ≡ Phase.waiting
unfolding steps step
steps-stop [] s n p i = p
steps-stop (Event.invalidate ∷ es) s n p i = absurd n
steps-stop (Event.stop ∷ es) s n p i = steps-stop es (record s { quit = true }) n p i
steps-stop (Event.turn ∷ es) s n p i =
    let still : thread_turn s.phase s ≡ s =
      ap (λ (a : Phase). thread_turn a s) p
      ∙ ap (λ (b : Bool). if b then record s { phase = Phase.loading } else s) i in
    ap (λ (t : Loader). (steps es t).phase) still ∙ steps-stop es s n p i

abbrev loaded : Bool → Loader → Loader
loaded quit s = record s {
  tree_invalidated = false;
  phase = if quit then Phase.ended else Phase.waiting;
}

at_rest :
    (quit : Bool) (s : Loader)
    → ((loaded quit s).tree_invalidated ≡ false)
      × ((loaded quit s).phase ≢ Phase.loading)
      × (due (loaded quit s) ≡ 0)
at_rest true s = (refl, λ e. cc, refl)
at_rest false s = (refl, λ e. cc, refl)

-- Invalidations that come while a load runs are forgotten: when it is over, the loader sleeps or has
-- ended, and no load is due.
pub steps-loading :
    (es : List Event) (s : Loader)
    → NoTurn es
    → s.phase ≡ Phase.loading
    → let after = steps (es ++ Event.turn ∷ []) s in
      (after.tree_invalidated ≡ false) × (after.phase ≢ Phase.loading) × (due after ≡ 0)
unfolding steps step
steps-loading [] s n p =
    let over : thread_turn s.phase s ≡ loaded s.quit s = ap (λ (a : Phase). thread_turn a s) p in
    rw over (at_rest s.quit s)
steps-loading (Event.invalidate ∷ es) s n p =
    steps-loading es (record s { tree_invalidated = true }) n p
steps-loading (Event.stop ∷ es) s n p = steps-loading es (record s { quit = true }) n p
steps-loading (Event.turn ∷ es) s n p = absurd n

-- In every interleaving of the threads a load has its own invalidation: no more loads begin than there
-- are invalidations, one more if one is due at the start.
pub loads-invalidations : (es : List Event) (s : Loader) → loads es s ≤ invalidations es + due s
unfolding loads step
loads-invalidations [] s = omega arith
loads-invalidations (Event.invalidate ∷ es) s =
    ground (arith, loads-invalidations es (record s { tree_invalidated = true }))
loads-invalidations (Event.stop ∷ es) s =
    ground (arith, loads-invalidations es (record s { quit = true }))
loads-invalidations (Event.turn ∷ es) s = ground (arith, loads-invalidations es (step Event.turn s))
