-- ===== src/CandlePolicy/Boundary.antt =====
-- Candle boundaries and staleness (core/candle_policy.py). New York's time zone is a parameter.
use oanda_v.Prelude.{
  ℕ, ◌+◌, ◌-◌, ◌*◌, ◌/◌, ◌%◌, ◌≤◌, ◌<◌, String, none, some, [], ◌∷◌, string_key, ltb, leb, any,
  ◌==◌, if◌then◌else◌, Result, ok, raise, Error, List,
}
use oanda_v.Prelude.Results.{◌>>=◌}
use oanda_v.Prelude.Dict.{Dict, lookup}
use oanda_v.CandlePolicy.{Time, seconds, minutes, hours, get_timeframe_delta}

-- What the code asks of `zoneinfo` and `datetime`. A date is its proleptic ordinal, as of
-- `date.toordinal`, and `local_anchor d` is 17:00 of the date `d` in New York.
pub record Zone : Type 0 where
  pub local_date : Time → ℕ
  pub local_anchor : ℕ → Time

-- An instant lies between the anchors of the dates beside its own, and anchors grow.
pub record IsZone (z : Zone) : Type 0 where
  pub after_yesterday : (t : Time) → 1 < z.local_date t → z.local_anchor (z.local_date t - 1) ≤ t
  pub before_tomorrow : (t : Time) → t < z.local_anchor (z.local_date t + 1)
  pub anchors_grow : (d : ℕ) → 0 < d → z.local_anchor d < z.local_anchor (d + 1)

-- `date.weekday()`: Monday is 0.
abbrev pub weekday : ℕ → ℕ
weekday d = (d + 6) % 7

-- `_OANDA_WEEKDAY_INDEX[OANDA_WEEKLY_ALIGNMENT]`, a Friday.
abbrev pub week_start_index : ℕ
week_start_index = 4

-- `_TIMEFRAME_FLOOR_RULES`, with each pandas frequency as its duration.
unfoldable pub timeframe_floor_rules : Dict String ℕ
timeframe_floor_rules =
    ("S5", seconds 5)
    ∷ ("S10", seconds 10)
    ∷ ("S15", seconds 15)
    ∷ ("S30", seconds 30)
    ∷ ("M1", minutes 1)
    ∷ ("M2", minutes 2)
    ∷ ("M4", minutes 4)
    ∷ ("M5", minutes 5)
    ∷ ("M10", minutes 10)
    ∷ ("M15", minutes 15)
    ∷ ("M30", minutes 30)
    ∷ ("H1", hours 1)
    ∷ []

-- `_OANDA_DAY_ALIGNED_TIMEFRAMES`
unfoldable pub day_aligned_timeframes : List String
day_aligned_timeframes = "H2" ∷ "H3" ∷ "H4" ∷ "H6" ∷ "H8" ∷ "H12" ∷ "D" ∷ []

-- `Timestamp.floor`
abbrev pub floor : Time → ℕ → Time
floor t rule = t - t % rule

module _ (z : Zone) where
  -- `_oanda_daily_anchor_for`, as the date of the anchor.
  unfoldable pub daily_anchor_for : Time → ℕ
  daily_anchor_for t =
      let local_date = z.local_date t in
      if ltb t (z.local_anchor local_date) then local_date - 1 else local_date

  -- `_floor_to_oanda_day_aligned_boundary`
  unfoldable pub floor_to_day_aligned : Time → ℕ → Time
  floor_to_day_aligned t delta =
      let anchor = z.local_anchor (daily_anchor_for t) in
      let slots = (t - anchor) / delta in anchor + slots * delta

  -- `_floor_to_oanda_weekly_boundary`, as the date on which the week starts; `% 7` of Python is
  -- never negative.
  unfoldable pub week_start_for : Time → ℕ
  week_start_for t =
      let effective_date = daily_anchor_for t in
      effective_date - (weekday effective_date + 7 - week_start_index) % 7

  abbrev pub floor_to_weekly : Time → Time
  floor_to_weekly t = z.local_anchor (week_start_for t)

  unfoldable pub floor_time_to_boundary : Time → String → Result Time
  floor_time_to_boundary t timeframe = do
    delta ← get_timeframe_delta timeframe
    elim (lookup timeframe timeframe_floor_rules) [
      | some rule ↦ ok (floor t rule)
      | none ↦
          if any (λ f. f == timeframe) day_aligned_timeframes
          then ok (floor_to_day_aligned t delta)
          else if "W" == timeframe
          then ok (floor_to_weekly t)
          else raise Error.value_error
    ]

  -- `get_current_candle_start` at a given time.
  abbrev pub get_current_candle_start : String → Time → Result Time
  get_current_candle_start timeframe now = floor_time_to_boundary now timeframe

  unfoldable pub get_last_completed_candle_start : String → Time → Result Time
  get_last_completed_candle_start timeframe now = do
    current_start ← get_current_candle_start timeframe now
    delta ← get_timeframe_delta timeframe
    ok (current_start - delta)

  -- `calculate_candle_staleness_seconds`, in nanoseconds.
  unfoldable pub calculate_candle_staleness : Time → String → Time → Result ℕ
  calculate_candle_staleness last_completed_candle timeframe now = do
    expected ← get_last_completed_candle_start timeframe now
    ok (if leb expected last_completed_candle then 0 else expected - last_completed_candle)
