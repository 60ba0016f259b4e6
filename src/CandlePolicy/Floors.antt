-- ===== src/CandlePolicy/Floors.antt =====
-- `floor_time_to_boundary` over all timeframes, and the staleness that rests on it
-- (core/candle_policy.py).
use oanda_v.Prelude.{
  ℕ, ◌+◌, ◌-◌, ◌*◌, ◌/◌, ap, ◌∙◌, ◌≤◌, ◌<◌, ◌≡◌, ◌≢◌, ◌⊎◌, refl, String, none, some, [], ◌∷◌, ◌++◌,
  string_key, ltb, leb, ◌==◌, any, all, if◌then◌else◌, ok, Error, arith, Bool-cases, Bool, true,
  false, inl, inr, ◌||◌, Option-cases, Option, leb→le, leb_false→lt,
}
use oanda_v.Prelude.Results.{or_raise-eq-ok}
use oanda_v.Prelude.Dict.{Dict, lookup, lookup-all, lookup-append_left}
use oanda_v.CandlePolicy.{Time, hours, timeframe_deltas, get_timeframe_delta}
use oanda_v.CandlePolicy.Boundary.{
  Zone, IsZone, daily_anchor_for, floor, floor_to_day_aligned, floor_time_to_boundary,
  timeframe_floor_rules, day_aligned_timeframes, get_last_completed_candle_start,
  calculate_candle_staleness,
}
use oanda_v.CandlePolicy.Bounds.{daily_anchor_bounds, floor_to_day_aligned_bounds}

abbrev is_some : Option ℕ → Bool
is_some none = false
is_some (some _) = true

-- Each timeframe has one of the three kinds of boundary, and a positive duration.
abbrev is_covered : String → ℕ → Bool
is_covered timeframe delta =
    if ltb 0 delta
    then is_some (lookup timeframe timeframe_floor_rules)
      || any (λ f. f == timeframe) day_aligned_timeframes
      || "W" == timeframe
    else false

deltas_covered : all (λ (x : String × ℕ). is_covered x.0 x.1) timeframe_deltas ≡ true
unfolding timeframe_deltas timeframe_floor_rules day_aligned_timeframes lookup
deltas_covered = refl

delta-lookup :
    (timeframe : String) (delta : ℕ)
    → get_timeframe_delta timeframe ≡ ok delta
    → lookup timeframe timeframe_deltas ≡ some delta
unfolding get_timeframe_delta
delta-lookup timeframe delta h =
    or_raise-eq-ok Error.value_error (lookup timeframe timeframe_deltas) delta h

delta-is_covered :
    (timeframe : String) (delta : ℕ)
    → get_timeframe_delta timeframe ≡ ok delta
    → is_covered timeframe delta ≡ true
delta-is_covered timeframe delta h =
    lookup-all is_covered timeframe delta timeframe_deltas deltas_covered
      (delta-lookup timeframe delta h)

pub delta_pos :
    (timeframe : String) (delta : ℕ) → get_timeframe_delta timeframe ≡ ok delta → 0 < delta
delta_pos timeframe delta h = ground (arith, delta-is_covered timeframe delta h)

weekly_only :
    (timeframe : String) (delta : ℕ)
    → get_timeframe_delta timeframe ≡ ok delta
    → lookup timeframe timeframe_floor_rules ≡ none
    → any (λ f. f == timeframe) day_aligned_timeframes ≡ false
    → timeframe ≡ "W"
weekly_only tf delta h no_rule not_day =
    ground (arith, delta-is_covered tf delta h, string_key.test_iff "W" tf)

floor_bounds :
    (t rule : ℕ)
    → 0 < rule
    → (floor t rule ≤ t) × (t < floor t rule + rule) × (floor t rule ≡ t / rule * rule)
floor_bounds t rule h = grind arith

-- The timeframes without a floor rule.
abbrev aligned_deltas : Dict String ℕ
aligned_deltas =
    ("H2", hours 2)
    ∷ ("H3", hours 3)
    ∷ ("H4", hours 4)
    ∷ ("H6", hours 6)
    ∷ ("H8", hours 8)
    ∷ ("H12", hours 12)
    ∷ ("D", hours 24)
    ∷ ("W", hours 168)
    ∷ []

deltas-split : timeframe_deltas ≡ timeframe_floor_rules ++ aligned_deltas
unfolding timeframe_deltas timeframe_floor_rules
deltas-split = refl

rule-eq-delta :
    (timeframe : String) (rule delta : ℕ)
    → lookup timeframe timeframe_floor_rules ≡ some rule
    → lookup timeframe timeframe_deltas ≡ some delta
    → rule ≡ delta
rule-eq-delta timeframe rule delta h k =
    cc (
      lookup-append_left timeframe rule timeframe_floor_rules aligned_deltas h,
      rw deltas-split at k,
    )

module _ (z : Zone) (laws : IsZone z) where
  -- The boundaries of a timeframe. Those of a timeframe with a floor rule are the multiples of its
  -- duration. Those of a day-aligned one are whole durations from the last 17:00 in New York that is not
  -- after the instant.
  abbrev pub IsBoundary : Time → String → ℕ → Time → Type 0
  IsBoundary t timeframe delta start =
      ((k : ℕ) × (lookup timeframe timeframe_floor_rules ≡ some delta) × (start ≡ k * delta))
      ⊎ ((d : ℕ) × (k : ℕ) × (any (λ f. f == timeframe) day_aligned_timeframes ≡ true)
          × (z.local_anchor d ≤ t)
          × (t < z.local_anchor (d + 1))
          × (start ≡ z.local_anchor d + k * delta))

  -- Every supported timeframe but the weekly one has a boundary for every instant of a late enough
  -- date, and the instant lies in the candle that starts there: at most `delta` long. The boundary is a
  -- multiple of the duration where the timeframe has a floor rule, and lies whole durations after the
  -- day's 17:00 in New York where it is day-aligned.
  pub floor_time_to_boundary_bounds :
      (t : Time) (timeframe : String) (delta : ℕ)
      → 7 < z.local_date t
      → timeframe ≢ "W"
      → get_timeframe_delta timeframe ≡ ok delta
      → (start : Time) × (floor_time_to_boundary z t timeframe ≡ ok start)
        × (start ≤ t)
        × (t < start + delta)
        × IsBoundary t timeframe delta start
  unfolding floor_time_to_boundary floor_to_day_aligned
  floor_time_to_boundary_bounds t tf delta late other h =
      elim (Option-cases (lookup tf timeframe_floor_rules)) [
        | inl none_found ↦ elim (Bool-cases (any (λ f. f == tf) day_aligned_timeframes)) [
          | inl day ↦
              let (a, b, _) =
                floor_to_day_aligned_bounds z laws t delta late (delta_pos tf delta h) in
              let (after, before, _) = daily_anchor_bounds z laws t late in
              let d = daily_anchor_for z t in
              (
                floor_to_day_aligned z t delta,
                rw (h, none_found, day),
                a,
                b,
                inr (d, (t - z.local_anchor d) / delta, day, after, before, refl),
              )
          | inr week ↦ absurd (other (weekly_only tf delta h none_found week))
        ]
        | inr (rule, found) ↦
            let e = rule-eq-delta tf rule delta found (delta-lookup tf delta h) in
            let (below, above, grid) = floor_bounds t rule (omega (arith, delta_pos tf delta h)) in
            (
              floor t rule,
              rw (h, found),
              below,
              omega arith,
              inl (t / rule, found ∙ ap (λ n. some n) e, grid ∙ ap (λ n. t / rule * n) e),
            )
      ]

  -- The staleness is always computed, from the boundary at which the current candle starts. It is zero
  -- only if the candle after the cached one is not complete there, so that less than two candles' time
  -- has passed since the cached candle began. It is positive only where the candle one duration before
  -- the boundary began that much later than the cached one.
  pub calculate_candle_staleness_bounds :
      (last now : Time) (timeframe : String) (delta : ℕ)
      → 7 < z.local_date now
      → timeframe ≢ "W"
      → get_timeframe_delta timeframe ≡ ok delta
      → (s : ℕ) × (calculate_candle_staleness z last timeframe now ≡ ok s)
        × ((start : Time) × (floor_time_to_boundary z now timeframe ≡ ok start)
            × (start ≤ now)
            × (now < start + delta)
            × IsBoundary now timeframe delta start
            × (((s ≡ 0) × (start ≤ last + delta) × (now < last + delta + delta))
                ⊎ ((0 < s) × (last + s + delta ≡ start))))
  unfolding calculate_candle_staleness get_last_completed_candle_start
  calculate_candle_staleness_bounds last now tf delta late other h =
      let (start, e, below, above, grid) =
        floor_time_to_boundary_bounds now tf delta late other h in
      (
        (if leb (start - delta) last then 0 else start - delta - last),
        rw (e, h),
        (
          start,
          e,
          below,
          above,
          grid,
          elim (Bool-cases (leb (start - delta) last)) [
            | inl fresh ↦
                inl
                  (rw fresh refl, omega (arith, leb→le _ _ fresh), omega (arith, leb→le _ _ fresh))
            | inr stale ↦ inr (
              rw stale (omega (arith, leb_false→lt _ _ stale)),
              rw stale (omega (arith, leb_false→lt _ _ stale)),
            )
          ],
        ),
      )
