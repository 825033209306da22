-- ===== src/Heartbeat/Loads.antt =====
-- What the heartbeat makes the loader do.
use rewofs.Base.{
  ℕ, suc, ◌+◌, ◌≤◌, ◌≡◌, refl, ap, ◌∙◌, Bool, true, false, List, [], ◌∷◌, ◌++◌, Bool-cases, inl,
  inr, arith,
}
use rewofs.BackgroundLoader.{Loader, Phase, Event, step, steps, thread_turn}
use rewofs.BackgroundLoader.Loop.{loads, due, invalidations, loads-invalidations}
use rewofs.Heartbeat.{Pings, State, Turn, ping, beat, turns}

-- How often `invalidate_tree` is called from elsewhere.
abbrev pub notifications : List Turn → ℕ
notifications [] = 0
notifications (Turn.own ∷ ts) = notifications ts
notifications (Turn.other Event.invalidate ∷ ts) = suc (notifications ts)
notifications (Turn.other Event.stop ∷ ts) = notifications ts
notifications (Turn.other Event.turn ∷ ts) = notifications ts

-- The loader's own thread does not run.
abbrev NoLoaderTurn : List Turn → Type 0
NoLoaderTurn [] = Unit
NoLoaderTurn (Turn.own ∷ ts) = NoLoaderTurn ts
NoLoaderTurn (Turn.other Event.turn ∷ ts) = ⊥
NoLoaderTurn (Turn.other Event.invalidate ∷ ts) = NoLoaderTurn ts
NoLoaderTurn (Turn.other Event.stop ∷ ts) = NoLoaderTurn ts

-- A ping that is answered where the last was not.
abbrev rising : Bool → Bool → ℕ
rising false true = 1
rising _ _ = 0

abbrev when_rising : Bool → Bool → List Event → List Event
when_rising false true es = Event.invalidate ∷ es
when_rising _ _ es = es

module _ {T : Type 0} (pings : Pings T) where
  -- How often a connection is found, from this answer to the last ping and this channel on.
  abbrev pub connections : List Turn → Bool → T → ℕ
  connections [] c t = 0
  connections (Turn.own ∷ ts) c t =
      rising c (ping pings t).0 + connections ts (ping pings t).0 (ping pings t).1
  connections (Turn.other e ∷ ts) c t = connections ts c t

  -- The answer to the last ping.
  abbrev pub last_answer : List Turn → Bool → T → Bool
  last_answer [] c t = c
  last_answer (Turn.own ∷ ts) c t = last_answer ts (ping pings t).0 (ping pings t).1
  last_answer (Turn.other e ∷ ts) c t = last_answer ts c t

  -- All that the loader gets to see.
  abbrev pub events : List Turn → Bool → T → List Event
  events [] c t = []
  events (Turn.own ∷ ts) c t =
      when_rising c (ping pings t).0 (events ts (ping pings t).0 (ping pings t).1)
  events (Turn.other e ∷ ts) c t = e ∷ events ts c t

  invalidations-rising :
      (c d : Bool) (es : List Event)
      → invalidations (when_rising c d es) ≡ rising c d + invalidations es
  invalidations-rising false true es = omega arith
  invalidations-rising false false es = omega arith
  invalidations-rising true d es = omega arith

  invalidations-events :
      (ts : List Turn) (c : Bool) (t : T)
      → invalidations (events ts c t) ≡ connections ts c t + notifications ts
  invalidations-events [] c t = refl
  invalidations-events (Turn.own ∷ ts) c t = omega (
    arith,
    invalidations-rising c (ping pings t).0 (events ts (ping pings t).0 (ping pings t).1),
    invalidations-events ts (ping pings t).0 (ping pings t).1,
  )
  invalidations-events (Turn.other Event.invalidate ∷ ts) c t =
      omega (arith, invalidations-events ts c t)
  invalidations-events (Turn.other Event.stop ∷ ts) c t = invalidations-events ts c t
  invalidations-events (Turn.other Event.turn ∷ ts) c t = invalidations-events ts c t

  beat-state :
      (c : Bool) (loader : Loader) (t : T) (es : List Event)
      → let next = beat pings (record { connected = c; loader = loader; channel = t }) in
        (next.connected ≡ (ping pings t).0)
        × (next.channel ≡ (ping pings t).1)
        × (steps es next.loader ≡ steps (when_rising c (ping pings t).0 es) loader)
  unfolding beat steps
  beat-state true loader t es = elim (Bool-cases (ping pings t).0) [
    | inl h ↦ rw (h, beat) (refl, refl, refl)
    | inr h ↦ rw (h, beat) (refl, refl, refl)
  ]
  beat-state false loader t es = elim (Bool-cases (ping pings t).0) [
    | inl h ↦ rw (h, beat) (refl, refl, refl)
    | inr h ↦ rw (h, beat) (refl, refl, refl)
  ]

  turns-events :
      (ts : List Turn) (s : State T)
      → ((turns pings ts s).loader ≡ steps (events ts s.connected s.channel) s.loader)
        × ((turns pings ts s).connected ≡ last_answer ts s.connected s.channel)
  unfolding turns steps
  turns-events [] s = (refl, refl)
  turns-events (Turn.own ∷ ts) s =
      let (c, t, l) =
        beat-state s.connected s.loader s.channel
          (events ts (ping pings s.channel).0 (ping pings s.channel).1) in
      let (next, last) = turns-events ts (beat pings s) in
      (
        next
            ∙ ap (λ (x : Bool). steps (events ts x (beat pings s).channel) (beat pings s).loader) c
            ∙ ap (λ (x : T). steps (events ts (ping pings s.channel).0 x) (beat pings s).loader) t
            ∙ l,
        last
            ∙ ap (λ (x : Bool). last_answer ts x (beat pings s).channel) c
            ∙ ap (λ (x : T). last_answer ts (ping pings s.channel).0 x) t,
      )
  turns-events (Turn.other e ∷ ts) s = turns-events ts (record s { loader = step e s.loader })

  -- In every interleaving of the heartbeat, the loader and the threads that invalidate and stop it: the
  -- client is connected exactly if the last ping was answered, and the loader begins no more loads than
  -- there are answered pings behind an unanswered one, and notifications, one more if one is due at the start.
  pub turns-loads :
      (ts : List Turn) (s : State T)
      → let es = events ts s.connected s.channel in
        ((turns pings ts s).connected ≡ last_answer ts s.connected s.channel)
        × ((turns pings ts s).loader ≡ steps es s.loader)
        × (loads es s.loader
            ≤ connections ts s.connected s.channel + notifications ts + due s.loader)
  turns-loads ts s = (
    (turns-events ts s).1,
    (turns-events ts s).0,
    omega (
      arith,
      loads-invalidations (events ts s.connected s.channel) s.loader,
      invalidations-events ts s.connected s.channel,
    ),
  )

  still_invalidated :
      (s : State T)
      → s.loader.tree_invalidated ≡ true
      → (beat pings s).loader.tree_invalidated ≡ true
  unfolding beat step
  still_invalidated s i = ground arith

  still_waiting :
      (s : State T) → s.loader.phase ≡ Phase.waiting → (beat pings s).loader.phase ≡ Phase.waiting
  unfolding beat step
  still_waiting s p = ground arith

  invalidated :
      (ts : List Turn) (s : State T)
      → NoLoaderTurn ts
      → s.loader.tree_invalidated ≡ true
      → s.loader.phase ≡ Phase.waiting
      → (turns pings (ts ++ Turn.other Event.turn ∷ []) s).loader.phase ≡ Phase.loading
  unfolding turns step
  invalidated [] s n i p = ap (λ (a : Phase). (thread_turn a s.loader).phase) p ∙ rw i refl
  invalidated (Turn.own ∷ ts) s n i p =
      invalidated ts (beat pings s) n (still_invalidated s i) (still_waiting s p)
  invalidated (Turn.other Event.invalidate ∷ ts) s n i p =
      invalidated ts (record s { loader = record s.loader { tree_invalidated = true } }) n refl p
  invalidated (Turn.other Event.stop ∷ ts) s n i p =
      invalidated ts (record s { loader = record s.loader { quit = true } }) n i p
  invalidated (Turn.other Event.turn ∷ ts) s n i p = absurd n

  -- When a ping is answered after one that was not, or for the first time, a loader that waits begins a
  -- load with its next turn, whatever other threads and later pings do meanwhile.
  connect-loads :
      (ts : List Turn) (s : State T)
      → NoLoaderTurn ts
      → s.connected ≡ false
      → (ping pings s.channel).0 ≡ true
      → s.loader.phase ≡ Phase.waiting
      → (turns pings (Turn.own ∷ ts ++ Turn.other Event.turn ∷ []) s).loader.phase ≡ Phase.loading
  unfolding turns beat
  connect-loads ts s n c a p =
      invalidated ts (beat pings s) n (rw (a, c, beat) refl) (rw (a, c, beat) p)
