-- ===== src/Heartbeat.antt =====
-- `Heartbeat` of src/rewofs/client/heartbeat.cpp, together with the loader that it wakes. The channel is a
-- parameter.
pub mod Loads
mod Tests
use rewofs.Base.{ℕ, Bool, true, false, List, [], ◌∷◌, if◌then◌else◌}
use rewofs.BackgroundLoader.{Loader, Event, step}

-- The command `Ping`, and whether a `Pong` with its id comes before the timeout.
pub record Pings (T : Type 0) : Type 0 where
  pub add_command : T → ℕ × T
  pub wait_for_result : ℕ → T → Bool × T

-- `m_connected`, the loader that `m_loader` refers to, and the channel.
pub record State (T : Type 0) : Type 0 where
  pub connected : Bool
  pub loader : Loader
  pub channel : T

-- What happens: a turn of the loop of `run`, or an event of the loader from another thread.
pub data Turn : Type 0 where
  own : Turn
  other : Event → Turn

module _ {T : Type 0} (pings : Pings T) where
  abbrev on_connect : Loader → Loader
  on_connect loader = step Event.invalidate loader

  -- Whether the ping is answered, and the channel behind it.
  abbrev pub ping : T → Bool × T
  ping t = let sent = pings.add_command t in pings.wait_for_result sent.0 sent.1

  unfoldable pub beat : State T → State T
  unfolding step
  beat s =
      let res = ping s.channel in
      if res.0
      then (if s.connected
          then record s { channel = res.1 }
          else record s { connected = true; loader = on_connect s.loader; channel = res.1 })
      else record s { connected = false; channel = res.1 }

  unfoldable pub turns : List Turn → State T → State T
  unfolding beat step
  turns [] s = s
  turns (Turn.own ∷ ts) s = turns ts (beat s)
  turns (Turn.other e ∷ ts) s = turns ts (record s { loader = step e s.loader })
