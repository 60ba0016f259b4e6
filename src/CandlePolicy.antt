-- ===== src/CandlePolicy.antt =====
-- Candle timeframes (core/candle_policy.py). Instants are whole nanoseconds, the resolution of a
-- pandas timestamp, since 0001-01-01 in UTC. The epoch of pandas is a whole number of days later,
-- and each duration by which an instant is floored divides a day, so the floors agree.
pub mod Boundary
pub mod Bounds
pub mod Floors
pub mod LongDays
mod Tests
use oanda_v.Prelude.{ℕ, ◌*◌, String, none, some, [], ◌∷◌, string_key}
use oanda_v.Prelude.Results.{Result, Error, or_raise}
use oanda_v.Prelude.Dict.{Dict, lookup}

abbrev pub Time : Type 0
Time = ℕ

abbrev pub seconds : ℕ → ℕ
seconds n = n * 1_000_000_000

abbrev pub minutes : ℕ → ℕ
minutes n = seconds (n * 60)

abbrev pub hours : ℕ → ℕ
hours n = seconds (n * 3600)

-- `TIMEFRAME_DELTAS`
unfoldable pub timeframe_deltas : Dict String ℕ
timeframe_deltas =
    ("S5", seconds 5)
    ∷ ("S10", seconds 10)
    ∷ ("S15", seconds 15)
    ∷ ("S30", seconds 30)
    ∷ ("M1", minutes 1)
    ∷ ("M2", minutes 2)
    ∷ ("M4", minutes 4)
    ∷ ("M5", minutes 5)
    ∷ ("M10", minutes 10)
    ∷ ("M15", minutes 15)
    ∷ ("M30", minutes 30)
    ∷ ("H1", hours 1)
    ∷ ("H2", hours 2)
    ∷ ("H3", hours 3)
    ∷ ("H4", hours 4)
    ∷ ("H6", hours 6)
    ∷ ("H8", hours 8)
    ∷ ("H12", hours 12)
    ∷ ("D", hours 24)
    ∷ ("W", hours 168)
    ∷ []

unfoldable pub get_timeframe_delta : String → Result ℕ
get_timeframe_delta timeframe = or_raise Error.value_error (lookup timeframe timeframe_deltas)
