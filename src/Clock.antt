-- ===== src/Clock.antt =====
-- The logical clock of src/round/clock.c and its use in src/round/node.c. A value is a `clock_t`, a
-- signed 64-bit integer; a sum above the greatest one is undefined in C, and `none` here. The mutex
-- of a clock makes each operation one step. The clock is never NULL.
use round.Common.{◌+◌, ◌-◌, ◌^◌, ◌<◌, Option, none, some, List, [], ◌∷◌, if◌then◌else◌}
use round.Common.Int.{ℤ, pos, ◌+ℤ◌, ltb_ℤ, eqb_ℤ, pos_part, neg_part}

-- `ROUND_CLOCK_INITIAL_VALUE`
abbrev pub initial_value : ℤ
initial_value = pos 0

abbrev pub max_value : ℤ
max_value = pos (2 ^ 63 - 1)

-- `clk->value += ROUND_CLOCK_INCREMENT_VALUE`
unfoldable pub add_increment : ℤ → Option ℤ
add_increment value = if ltb_ℤ value max_value then some (value +ℤ pos 1) else none

-- `round_clock_setremotevalue`: the value of the clock afterwards
unfoldable pub setremotevalue : ℤ → ℤ → Option ℤ
unfolding add_increment
setremotevalue value remote_value =
    add_increment (if ltb_ℤ value remote_value then remote_value else value)

-- `round_clock_increment`
unfoldable pub increment : ℤ → Option ℤ
unfolding add_increment
increment value = add_increment value

pub data ClockOrder : Type 0 where
  same : ClockOrder
  ascending : ClockOrder
  descending : ClockOrder

-- `round_clock_compare`
unfoldable pub compare : ℤ → ℤ → ClockOrder
compare value1 value2 =
    if eqb_ℤ value1 value2 then same else if ltb_ℤ value2 value1 then descending else ascending

-- `round_node_updateclockbyjsonobject`; the timestamp is that of the JSON object, where it has one.
unfoldable pub updateclock : ℤ → Option ℤ → Option ℤ
unfolding setremotevalue increment
updateclock value none = increment value
updateclock value (some ts) = setremotevalue value ts

infix 50 ◌<ℤ◌
abbrev pub ◌<ℤ◌ : ℤ → ℤ → Type 0
a <ℤ b = pos_part a + neg_part b < pos_part b + neg_part a

-- The clock after a run of messages, each with its timestamp or without one.
unfoldable pub receive_all : ℤ → List (Option ℤ) → Option ℤ
unfolding updateclock
receive_all value [] = some value
receive_all value (ts ∷ messages) = elim (updateclock value ts) [
  | none ↦ none
  | some v ↦ receive_all v messages
]

-- A timestamp, where there is one, that a clock is ahead of.
abbrev pub IsAhead : ℤ → Option ℤ → Type 0
IsAhead value none = Unit
IsAhead value (some ts) = ts <ℤ value
