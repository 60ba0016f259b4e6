-- ===== src/CandlePolicy/Tests.antt =====
-- Candle boundaries at concrete instants, in zones with a fixed offset and with one long day.
use oanda_v.Prelude.{
  String, ◌⊎◌, ◌≢◌, ℕ, ◌+◌, ◌-◌, ◌*◌, ◌/◌, ◌≤◌, ◌<◌, ◌≡◌, refl, ok, raise, Error, arith, string_key,
  leb, if◌then◌else◌,
}
use oanda_v.Prelude.Dict.{lookup}
use oanda_v.CandlePolicy.{Time, hours, minutes, timeframe_deltas, get_timeframe_delta}
use oanda_v.CandlePolicy.Boundary.{
  Zone, IsZone, weekday, daily_anchor_for, floor_to_day_aligned, week_start_for, floor_to_weekly,
  floor_time_to_boundary, timeframe_floor_rules, day_aligned_timeframes,
  get_last_completed_candle_start, calculate_candle_staleness,
}
use oanda_v.CandlePolicy.Bounds.{floor_to_weekly_bounds}
use oanda_v.CandlePolicy.Floors.{
  IsBoundary, floor_time_to_boundary_bounds, calculate_candle_staleness_bounds,
}
use oanda_v.CandlePolicy.LongDays.{calculate_candle_staleness-long_day}

program : Unit {0}
unfolding lookup timeframe_deltas get_timeframe_delta daily_anchor_for floor_to_day_aligned
    week_start_for floor_time_to_boundary timeframe_floor_rules day_aligned_timeframes
    get_last_completed_candle_start calculate_candle_staleness
program = tt

-- Always five hours behind UTC.
abbrev eastern : Zone
eastern = record {
  local_date = λ t. (t + hours 19) / hours 24;
  local_anchor = λ d. d * hours 24 - hours 2;
}

eastern-IsZone : IsZone eastern
eastern-IsZone = record {
  after_yesterday = λ t h. omega arith;
  before_tomorrow = λ t. omega arith;
  anchors_grow = λ d h. omega arith;
}

-- 2024-01-10 09:30 in UTC, a Wednesday, by the ordinal 738895 of its date.
abbrev morning : Time
morning = 738_895 * hours 24 - hours 24 + hours 9 + minutes 30

floors :
    (floor_time_to_boundary eastern morning "H1" ≡ ok (morning - minutes 30))
    × (floor_time_to_boundary eastern morning "H4" ≡ ok (morning - hours 3 - minutes 30))
    × (floor_time_to_boundary eastern morning "D" ≡ ok (morning - hours 11 - minutes 30))
    × (floor_time_to_boundary eastern morning "W" ≡ ok (morning - hours 107 - minutes 30))
    × (floor_time_to_boundary eastern morning "H7" ≡ raise Error.value_error)
unfolding program
floors = (refl, refl, refl, refl, refl)

-- The clocks go back between the anchors of the dates 19 and 20.
abbrev autumn : Zone
autumn = record {
  local_date = λ t. (t + hours 19) / hours 24;
  local_anchor = λ d. d * hours 24 - (if leb 20 d then hours 1 else hours 2);
}

autumn-IsZone : IsZone autumn
autumn-IsZone = record {
  after_yesterday = λ t h. ground arith;
  before_tomorrow = λ t. ground arith;
  anchors_grow = λ d h. ground arith;
}

h4-ne-w : ◌≢◌ {A = String} "H4" "W"
h4-ne-w = ground (arith, string_key.test_iff "H4" "W")

h1-ne-w : ◌≢◌ {A = String} "H1" "W"
h1-ne-w = ground (arith, string_key.test_iff "H1" "W")

floor_to_weekly_bounds_example :
    (weekday (week_start_for eastern morning) ≡ 4)
    × (floor_to_weekly eastern morning ≤ morning)
    × (morning < eastern.local_anchor (week_start_for eastern morning + 7))
floor_to_weekly_bounds_example = floor_to_weekly_bounds eastern eastern-IsZone morning (omega arith)

floor_time_to_boundary_bounds_example :
    (start : Time) × (floor_time_to_boundary eastern morning "H4" ≡ ok start)
    × (start ≤ morning)
    × (morning < start + hours 4)
    × IsBoundary eastern eastern-IsZone morning "H4" (hours 4) start
unfolding program
floor_time_to_boundary_bounds_example =
    floor_time_to_boundary_bounds eastern eastern-IsZone morning "H4" (hours 4) (omega arith)
      h4-ne-w refl

calculate_candle_staleness_bounds_example :
    (s : ℕ) × (calculate_candle_staleness eastern (morning - hours 3) "H1" morning ≡ ok s)
    × ((start : Time) × (floor_time_to_boundary eastern morning "H1" ≡ ok start)
        × (start ≤ morning)
        × (morning < start + hours 1)
        × IsBoundary eastern eastern-IsZone morning "H1" (hours 1) start
        × (((s ≡ 0)
              × (start ≤ morning - hours 3 + hours 1)
              × (morning < morning - hours 3 + hours 1 + hours 1))
            ⊎ ((0 < s) × (morning - hours 3 + s + hours 1 ≡ start))))
unfolding program
calculate_candle_staleness_bounds_example =
    calculate_candle_staleness_bounds eastern eastern-IsZone (morning - hours 3) morning "H1"
      (hours 1) (omega arith) h1-ne-w refl

calculate_candle_staleness-long_day_example :
    calculate_candle_staleness autumn (autumn.local_anchor 19) "D" (hours 490) ≡ ok (hours 1)
calculate_candle_staleness-long_day_example =
    calculate_candle_staleness-long_day autumn autumn-IsZone (hours 490) 20 (omega arith)
      (omega arith) refl (omega arith) (omega arith) (omega arith)
