-- ===== src/Heartbeat/Tests.antt =====
-- The heartbeat at inputs: a server that answers no ping, then two, and then no more.
use rewofs.Base.{ℕ, suc, ◌+◌, ◌≤◌, ◌≡◌, refl, Bool, false, ◌==◌, ◌||◌, List, [], ◌∷◌}
use rewofs.BackgroundLoader.{Phase, Event, step, steps, started}
use rewofs.BackgroundLoader.Loop.{loads, due}
use rewofs.Heartbeat.{Pings, State, Turn, beat, turns}
use rewofs.Heartbeat.Loads.{connections, events, last_answer, notifications, turns-loads}

abbrev answers : ℕ → Bool
answers n = n == 1 || n == 2

-- The state of the channel is the number of pings.
abbrev pings : Pings ℕ
pings = record { add_command = λ n. (n, suc n); wait_for_result = λ mid n. (answers mid, n) }

abbrev at : ℕ → State ℕ
at n = record { connected = false; loader = started; channel = n }

abbrev four : List Turn
four = Turn.own ∷ Turn.own ∷ Turn.other Event.turn ∷ Turn.own ∷ Turn.own ∷ []

program : Unit {0}
unfolding beat turns step loads steps
program = tt

-- One load for the two answered pings.
loading : (turns pings four (at 0)).loader.phase ≡ Phase.loading
unfolding program
loading = refl

-- The theorems at inputs.
turns-loads_example :
    ((turns pings four (at 0)).connected ≡ last_answer pings four false 0)
    × ((turns pings four (at 0)).loader ≡ steps (events pings four false 0) started)
    × (loads (events pings four false 0) started
        ≤ connections pings four false 0 + notifications four + due started)
turns-loads_example = turns-loads pings four (at 0)
