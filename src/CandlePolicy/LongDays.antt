-- ===== src/CandlePolicy/LongDays.antt =====
-- Staleness on the day after a 25-hour day in New York (core/candle_policy.py): the code steps back
-- from the daily boundary by 24 hours, where the daily candle before it began 25 hours earlier.
use oanda_v.Prelude.{
  ℕ, ◌+◌, ◌-◌, ◌≤◌, ◌<◌, ◌≡◌, refl, string_key, ltb, ok, arith, Bool-cases, inl, inr, ltb→lt,
  ltb_false→le,
}
use oanda_v.Prelude.Dict.{lookup}
use oanda_v.CandlePolicy.{Time, hours, timeframe_deltas, get_timeframe_delta}
use oanda_v.CandlePolicy.Boundary.{
  Zone, IsZone, daily_anchor_for, floor_to_day_aligned, floor_time_to_boundary,
  timeframe_floor_rules, day_aligned_timeframes, get_last_completed_candle_start,
  calculate_candle_staleness,
}
use oanda_v.CandlePolicy.Bounds.{daily_anchor_bounds, anchors_mono}

daily_delta : get_timeframe_delta "D" ≡ ok (hours 24)
unfolding get_timeframe_delta timeframe_deltas lookup
daily_delta = refl

daily_floor :
    (z : Zone) (t : Time)
    → floor_time_to_boundary z t "D" ≡ ok (floor_to_day_aligned z t (hours 24))
unfolding floor_time_to_boundary get_timeframe_delta timeframe_deltas timeframe_floor_rules
    day_aligned_timeframes lookup
daily_floor z t = refl

module _ (z : Zone) (laws : IsZone z) where
  -- The daily anchor is determined by the anchors round the instant.
  daily_anchor_unique :
      (t : Time) (d : ℕ)
      → 7 < z.local_date t
      → 0 < d
      → z.local_anchor d ≤ t
      → t < z.local_anchor (d + 1)
      → daily_anchor_for z t ≡ d
  daily_anchor_unique t d late positive below above =
      let e = daily_anchor_for z t in
      let (low, high, big) = daily_anchor_bounds z laws t late in
      elim (Bool-cases (ltb e d)) [
        | inl less ↦
            let up : e + 1 + (d - e - 1) ≡ d = omega (arith, ltb→lt _ _ less) in
            absurd (omega (arith, rw up at (anchors_mono z laws (e + 1) (d - e - 1) (omega arith))))
        | inr not_less ↦ elim (Bool-cases (ltb d e)) [
          | inl more ↦
              let up : d + 1 + (e - d - 1) ≡ e = omega (arith, ltb→lt _ _ more) in
              absurd
                (omega (arith, rw up at (anchors_mono z laws (d + 1) (e - d - 1) (omega arith))))
          | inr not_more ↦ omega (arith, ltb_false→le _ _ not_less, ltb_false→le _ _ not_more)
        ]
      ]

  -- After a daily candle of 25 hours, through the first 24 hours of the next one, a cache whose
  -- newest candle is that latest completed candle is an hour stale.
  pub calculate_candle_staleness-long_day :
      (now : Time) (d : ℕ)
      → 7 < z.local_date now
      → 1 < d
      → z.local_anchor d ≡ z.local_anchor (d - 1) + hours 25
      → z.local_anchor d ≤ now
      → now < z.local_anchor d + hours 24
      → now < z.local_anchor (d + 1)
      → calculate_candle_staleness z (z.local_anchor (d - 1)) "D" now ≡ ok (hours 1)
  unfolding calculate_candle_staleness get_last_completed_candle_start floor_to_day_aligned
  calculate_candle_staleness-long_day now d late big long below day above =
      let anchor = daily_anchor_unique now d late (omega arith) below above in
      rw (daily_floor, daily_delta, anchor) (ground arith)
