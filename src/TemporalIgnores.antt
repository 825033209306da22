-- ===== src/TemporalIgnores.antt =====
-- `TemporalIgnores` of src/rewofs/server/watcher.hpp and watcher.cpp: the paths that the server has changed
-- itself a short while ago. A time is a number of ticks of the steady clock; where `now` is before
-- `ignore_duration` the code's threshold is negative, and here 0, below which no item is either way.
pub mod LowerBound
pub mod History
mod Tests
use rewofs.Base.{
  ℕ, zero, suc, ◌+◌, ◌-◌, ◌/◌, Bool, true, false, List, [], ◌∷◌, ◌++◌, Option, none, some, length,
  drop, get_elem?, ite, ltb, find_if, if◌then◌else◌,
}
use rewofs.Base.Paths.{Paths}

-- `TemporalIgnores::Item`
pub record Item (P : Type 0) : Type 0 where
  pub tp : ℕ
  pub path : P

-- `m_items`
abbrev pub Items : Type 0 → Type 0
Items P = List (Item P)

-- `i1.tp < i2.tp`, for the item at an index.
abbrev is_before : {P : Type 0} → Option (Item P) → ℕ → Bool
is_before none value = false
is_before (some i) value = ltb i.tp value

-- The loop of `std::lower_bound` in the range of `len` items from `first`; half the range goes in each
-- round, so `len` rounds are enough.
unfoldable pub lower_bound_loop : {P : Type 0} → ℕ → Items P → ℕ → ℕ → ℕ → ℕ
lower_bound_loop zero items value first len = first
lower_bound_loop (suc fuel) items value first zero = first
lower_bound_loop (suc fuel) items value first (suc n) =
    let half = suc n / 2 in
    let middle = first + half in
    elim (is_before (get_elem? items middle) value) [
      | true ↦ lower_bound_loop fuel items value (middle + 1) (suc n - half - 1)
      | false ↦ lower_bound_loop fuel items value first half
    ]

unfoldable pub lower_bound : {P : Type 0} → Items P → ℕ → ℕ
unfolding lower_bound_loop
lower_bound items value = lower_bound_loop (length items) items value 0 (length items)

-- `std::find_if` has found an item.
abbrev pub is_found : {A : Type 0} → Option A → Bool
is_found none = false
is_found (some a) = true

abbrev pub add : {P : Type 0} → ℕ → P → Items P → Items P
add now path items = items ++ record { tp = now; path = path } ∷ []

module _ {P : Type 0} ⦃paths : Paths P⦄ (ignore_duration : ℕ) where
  open paths use {equal}

  abbrev pub same_path : P → Item P → Bool
  same_path path item = ite (equal path item.path) true false

  unfoldable pub check : ℕ → P → Items P → Bool × Items P
  unfolding lower_bound
  check now path items =
      let kept = drop (lower_bound items (now - ignore_duration)) items in
      (is_found (find_if (same_path path) kept), kept)
