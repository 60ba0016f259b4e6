-- ===== src/CandlePolicy/Bounds.antt =====
-- Where candle boundaries lie (core/candle_policy.py).
use oanda_v.Prelude.{
  ℕ, zero, suc, ◌+◌, ◌-◌, ◌*◌, ◌/◌, ◌%◌, ◌≤◌, ◌<◌, ◌≡◌, string_key, ltb, arith, Bool-cases, inl,
  inr, ltb→lt, ltb_false→le,
}
use oanda_v.CandlePolicy.{Time}
use oanda_v.CandlePolicy.Boundary.{
  Zone, IsZone, weekday, daily_anchor_for, floor_to_day_aligned, week_start_for, floor_to_weekly,
}

div_bounds : (x delta : ℕ) → 0 < delta → (x / delta * delta ≤ x) × (x < x / delta * delta + delta)
div_bounds x delta h = grind arith

module _ (z : Zone) (laws : IsZone z) where
  -- The daily anchor is the last one that is not after the instant.
  pub daily_anchor_bounds :
      (t : Time)
      → 7 < z.local_date t
      → (z.local_anchor (daily_anchor_for z t) ≤ t)
        × (t < z.local_anchor (daily_anchor_for z t + 1))
        × (6 < daily_anchor_for z t)
  unfolding daily_anchor_for
  daily_anchor_bounds t late = elim (Bool-cases (ltb t (z.local_anchor (z.local_date t)))) [
    | inl early ↦
        let e : z.local_date t - 1 + 1 ≡ z.local_date t = omega arith in
        rw early (laws.after_yesterday t (omega arith), rw e (ltb→lt _ _ early), omega arith)
    | inr passed ↦ rw passed (ltb_false→le _ _ passed, laws.before_tomorrow t, omega arith)
  ]

  pub floor_to_day_aligned_bounds :
      (t : Time) (delta : ℕ)
      → 7 < z.local_date t
      → 0 < delta
      → (floor_to_day_aligned z t delta ≤ t)
        × (t < floor_to_day_aligned z t delta + delta)
        × (z.local_anchor (daily_anchor_for z t) ≤ floor_to_day_aligned z t delta)
  unfolding floor_to_day_aligned
  floor_to_day_aligned_bounds t delta late h =
      let anchor = z.local_anchor (daily_anchor_for z t) in
      omega (arith, daily_anchor_bounds t late, div_bounds (t - anchor) delta h)

  pub anchors_mono : (d k : ℕ) → 0 < d → z.local_anchor d ≤ z.local_anchor (d + k)
  anchors_mono d zero h = let e : d + 0 ≡ d = omega arith in rw e (omega arith)
  anchors_mono d (suc k) h =
      let e : d + suc k ≡ d + k + 1 = omega arith in
      rw e (omega (arith, anchors_mono d k h, laws.anchors_grow (d + k) (omega arith)))

  -- The weekly candle of an instant starts at the anchor of a Friday, the last such anchor that is
  -- not after the instant.
  pub floor_to_weekly_bounds :
      (t : Time)
      → 7 < z.local_date t
      → (weekday (week_start_for z t) ≡ 4)
        × (floor_to_weekly z t ≤ t)
        × (t < z.local_anchor (week_start_for z t + 7))
  unfolding week_start_for
  floor_to_weekly_bounds t late =
      let d = daily_anchor_for z t in
      let (after, before, high) = daily_anchor_bounds t late in
      let back = (weekday d + 7 - 4) % 7 in
      let up : d - back + back ≡ d = omega arith in
      let rest : d + 1 + (6 - back) ≡ d - back + 7 = omega arith in
      (
        omega arith,
        omega (arith, rw up at (anchors_mono (d - back) back (omega arith))),
        omega (arith, rw rest at (anchors_mono (d + 1) (6 - back) (omega arith))),
      )
