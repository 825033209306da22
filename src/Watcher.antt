-- ===== src/Watcher.antt =====
-- `Watcher::run` of src/rewofs/server/watcher.cpp, over what inotify and the directory give it. A list
-- of these ends where `m_quit` is found set; the sleeps and the log output are left out.
pub mod Round
mod Tests
use rewofs.Base.{
  ℕ, ◌+◌, Bool, true, false, List, [], ◌∷◌, Option, none, some, ite, ◌==◌, if◌then◌else◌,
}
use rewofs.Base.Paths.{Paths}
use rewofs.Base.Result.{
  Result, ok, raise, Exception, system_error, runtime_error, undefined, enoent,
}
use rewofs.TemporalIgnores.{Items, check}

-- One call of `inotifytools_next_event(1)`: no event, one whose mask has IN_IGNORED, or one of the path
-- that `normalized` names.
pub data Poll (P : Type 0) : Type 0 where
  timeout : Poll P
  unwatched : Poll P
  changed : P → Poll P

-- `inotifytools_initialize` and `inotifytools_watch_recursively`: a failure of the first, ENOSPC from the
-- second, another error from it, or the events that follow.
pub data Watch (P : Type 0) : Type 0 where
  not_initialized : Watch P
  too_many_watches : Watch P
  not_watched : Watch P
  watching : List (Poll P) → Watch P

-- What one round of the loop meets: the watch, the time of the check, and the results of
-- `breadth_first_tree`, a `Print` each; `quits` where `m_quit` is set when the tree is the same twice.
pub record Surroundings (P Print : Type 0) : Type 0 where
  pub watch : Watch P
  pub now : ℕ
  pub prints : List (Result Print)
  pub quits : Bool

-- The `do` loop: the first event that counts, or nothing if the thread quits. What is behind it is
-- flushed at the end of the round.
unfoldable pub next_event : {P : Type 0} → List (Poll P) → Option P
next_event [] = none
next_event (Poll.timeout ∷ ps) = next_event ps
next_event (Poll.unwatched ∷ ps) = next_event ps
next_event (Poll.changed path ∷ ps) = some path

pub data Stabilized : Type 0 where
  stable : Stabilized
  quit : Stabilized
  thrown : Exception → Stabilized

-- `err.code() != no_such_file_or_directory`, or an exception that is no `filesystem_error`.
abbrev pub is_missing : Exception → Bool
is_missing (system_error e) = e == enoent
is_missing runtime_error = false
is_missing undefined = false

-- The loop that reads the tree until it is the same twice.
unfoldable pub stabilize :
    {Print : Type 0} → Discrete Print → List (Result Print) → Print → Stabilized
stabilize same [] fingerprint = quit
stabilize same (ok new ∷ rest) fingerprint = elim (same fingerprint new) [
  | yes e ↦ stable
  | no e ↦ stabilize same rest new
]
stabilize same (raise e ∷ rest) fingerprint = elim (is_missing e) [
  | true ↦ stabilize same rest fingerprint
  | false ↦ thrown e
]

-- How a round ends: with the next one, with a message to the client and the next one, with the end of the
-- loop, or with an exception that leaves the thread.
pub data Ending : Type 0 where
  again : Ending
  notified : Ending
  left : Ending
  died : Exception → Ending

abbrev pub ending_of : Bool → Stabilized → Ending
ending_of quits stable = if quits then left else notified
ending_of quits quit = left
ending_of quits (thrown e) = died e

module _ {P Print : Type 0} ⦃paths : Paths P⦄ (same : Discrete Print) (empty : Print)
    (ignore_duration : ℕ) where
  unfoldable pub react : P → Surroundings P Print → Items P → Ending × Items P
  unfolding check stabilize
  react path around items =
      let r = check ignore_duration around.now path items in
      (if r.0 then again else ending_of around.quits (stabilize same around.prints empty), r.1)

  unfoldable pub watch_round : Watch P → Surroundings P Print → Items P → Ending × Items P
  unfolding next_event react
  watch_round Watch.not_initialized around items = (left, items)
  watch_round Watch.too_many_watches around items = (left, items)
  watch_round Watch.not_watched around items = (again, items)
  watch_round (Watch.watching polls) around items = elim (next_event polls) [
    | none ↦ (left, items)
    | some path ↦ react path around items
  ]

  abbrev pub round : Surroundings P Print → Items P → Ending × Items P
  round around items = watch_round around.watch around items
