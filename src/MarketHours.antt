-- ===== src/MarketHours.antt =====
-- `MarketHoursService` (data/market_hours.py): whether the markets are open, by the sessions of the
-- package pandas_market_calendars, which are a parameter. Categories are taken stripped and in lower
-- case, and calendars are loaded anew where the code caches them.
pub mod Sessions
pub mod Overview
pub mod NextOpen
mod Tests
use oanda_v.Prelude.{
  ℕ, ◌+◌, ◌-◌, ◌/◌, ◌%◌, String, Bool, true, false, ◌&&◌, Option, none, some, List, [], ◌∷◌, ◌++◌,
  map, nat_key, string_key, ◌==◌, ltb, leb, is_empty, length, filter, if◌then◌else◌, Result, ok,
  raise, Error,
}
use oanda_v.Prelude.Results.{◌>>=◌, ◌>>◌, or_raise}
use oanda_v.Prelude.Dict.{Dict, lookup}
use oanda_v.CandlePolicy.{Time, seconds, hours}
use oanda_v.Instruments.{Category, get_instrument_spec}

-- A row of a schedule.
pub record Session : Type 0 where
  pub market_open : Time
  pub market_close : Time

-- `calendar.schedule(start_date, end_date)`, by days since 0001-01-01.
abbrev pub Calendar : Type 0
Calendar = ℕ → ℕ → List Session

-- The fields that the code sets (core/models.py); the source is always the same.
pub record MarketHoursStatus : Type 0 where
  pub checked_at : Time
  pub is_market_open : Bool
  pub category : String
  pub reason : String
  pub next_open_at : Option Time
  pub next_close_at : Option Time

pub record MarketHoursOverview : Type 0 where
  pub overall : MarketHoursStatus
  pub fx : MarketHoursStatus
  pub metals : MarketHoursStatus

pub record MarketHoursService : Type 0 where
  pub calendar_names : Dict String String
  pub last_status : Option MarketHoursOverview

-- `DEFAULT_CALENDAR_NAMES`
unfoldable pub default_calendar_names : Dict String String
default_calendar_names = ("fx", "CME_FX") ∷ ("metals", "CMEGlobex_PreciousMetals") ∷ []

-- `_CATEGORY_ALIASES`
unfoldable pub category_aliases : Dict String String
category_aliases =
    ("overall", "overall")
    ∷ ("fx", "fx")
    ∷ ("major_fx", "fx")
    ∷ ("minor_fx", "fx")
    ∷ ("metals", "metals")
    ∷ ("metal", "metals")
    ∷ ("energy_cfd", "overall")
    ∷ ("index_cfd", "overall")
    ∷ []

abbrev pub date : Time → ℕ
date t = t / hours 24

-- `weekday()`: 0001-01-01 was a Monday.
abbrev pub weekday : Time → ℕ
weekday t = date t % 7

unfoldable pub normalize_category : String → Result String
normalize_category category = or_raise Error.key_error (lookup category category_aliases)

-- The category as the registry spells it.
abbrev pub category_name : Category → String
category_name Category.metal = "metal"
category_name Category.index_cfd = "index_cfd"
category_name Category.major_fx = "major_fx"
category_name Category.minor_fx = "minor_fx"
category_name Category.energy_cfd = "energy_cfd"

unfoldable pub instrument_market_category : String → Result String
instrument_market_category instrument = do
  spec ← get_instrument_spec instrument
  normalize_category (category_name spec.category)

-- What the loop over a schedule leaves in `active_row`, `next_open` and `previous_close`.
pub record Scan : Type 0 where
  pub active_row : Option Session
  pub next_open : Option Time
  pub previous_close : Option Time

-- The loop of `_compute_category_status`. It leaves at the first row that sets `next_open`.
unfoldable pub scan : Time → List Session → Option Time → Scan
scan now [] closed = record { active_row = none; next_open = none; previous_close = closed }
scan now (row ∷ rows) closed =
    let passed = scan now rows (some row.market_close) in
    let skipped = scan now rows closed in
    if leb row.market_close now
    then passed
    else if leb row.market_open now && ltb now row.market_close
    then record { active_row = some row; next_open = none; previous_close = closed }
    else if ltb now row.market_open
    then record { active_row = none; next_open = some row.market_open; previous_close = closed }
    else skipped

-- The loop of `_find_next_open_after`.
unfoldable pub first_open_after : Time → List Session → Option Time
first_open_after now [] = none
first_open_after now (row ∷ rows) =
    let rest = first_open_after now rows in
    if ltb now row.market_open then some row.market_open else rest

-- `_LOOKBACK_DAYS` and `_LOOKAHEAD_DAYS`
abbrev pub lookback : ℕ
lookback = hours 168

abbrev pub lookahead : ℕ
lookahead = hours 336

-- The two schedules that the code asks for.
abbrev pub schedule_around : Calendar → Time → List Session
schedule_around calendar now = calendar (date (now - lookback)) (date (now + lookahead))

abbrev pub schedule_after : Calendar → Time → List Session
schedule_after calendar now = calendar (date (now + seconds 1)) (date (now + lookahead))

unfoldable pub find_next_open_after : Calendar → Time → Option Time
find_next_open_after calendar now = first_open_after now (schedule_after calendar now)

abbrev pub is_on : Time → Option Time → Bool
is_on now none = false
is_on now (some t) = date t == date now

unfoldable pub closed_reason : Time → Option Time → Option Time → String
closed_reason now previous_close next_open =
    if leb 5 (weekday now)
    then "weekend_closed"
    else if is_on now previous_close
    then "after_close"
    else if is_on now next_open
    then "pre_open"
    else "holiday_closed"

-- `_compute_category_status` after the loop.
unfoldable pub status_of :
    String → Calendar → Time → Option Session → Option Time → Option Time → MarketHoursStatus
status_of category calendar now (some row) found closed = record {
  checked_at = now;
  is_market_open = true;
  category = category;
  reason = "open";
  next_open_at = none;
  next_close_at = some row.market_close;
}
status_of category calendar now none found closed =
    let next_open : Option Time = elim found [
      | none ↦ find_next_open_after calendar now
      | some t ↦ some t
    ] in
    record {
      checked_at = now;
      is_market_open = false;
      category = category;
      reason = closed_reason now closed next_open;
      next_open_at = next_open;
      next_close_at = none;
    }

-- `[t for t in ... if t is not None]`
abbrev pub present : List (Option Time) → List Time
present [] = []
present (none ∷ ts) = present ts
present (some t ∷ ts) = t ∷ present ts

-- `min(candidates) if candidates else None`
abbrev pub earliest : List Time → Option Time
earliest [] = none
earliest (t ∷ ts) = elim (earliest ts) [ none ↦ some t | some u ↦ some (if leb t u then t else u) ]

unfoldable pub build_overall_status :
    Time → MarketHoursStatus → MarketHoursStatus → MarketHoursStatus
build_overall_status now fx metals =
    let statuses = fx ∷ metals ∷ [] in
    let open_statuses = filter (λ (s : MarketHoursStatus). s.is_market_open) statuses in
    if is_empty open_statuses
    then record {
      checked_at = now;
      is_market_open = false;
      category = "overall";
      reason = if fx.reason == metals.reason then fx.reason else "mixed_closed";
      next_open_at = earliest (present (fx.next_open_at ∷ metals.next_open_at ∷ []));
      next_close_at = none;
    }
    else record {
      checked_at = now;
      is_market_open = true;
      category = "overall";
      reason = if length open_statuses == 2 then "open" else "partial_open";
      next_open_at = none;
      next_close_at =
          earliest (present (map (λ (s : MarketHoursStatus). s.next_close_at) open_statuses));
    }

-- `load_calendar` is the package's `get_calendar`, by the name of a calendar.
module _ (load_calendar : String → Result Calendar) where
  unfoldable pub compute_category_status :
      String → Time → MarketHoursService → Result MarketHoursStatus
  compute_category_status category now service = do
    normalized ← normalize_category category
    calendar_name ← or_raise Error.key_error (lookup normalized service.calendar_names)
    calendar ← load_calendar calendar_name
    let s = scan now (schedule_around calendar now) none
    ok (status_of category calendar now s.active_row s.next_open s.previous_close)

  unfoldable pub get_status :
      Time → MarketHoursService → Result (MarketHoursOverview × MarketHoursService)
  get_status now service = do
    fx_status ← compute_category_status "fx" now service
    metals_status ← compute_category_status "metals" now service
    let overview : MarketHoursOverview = record {
      overall = build_overall_status now fx_status metals_status;
      fx = fx_status;
      metals = metals_status;
    }
    ok (overview, record service { last_status = some overview })

  unfoldable pub get_category_status :
      String → Time → MarketHoursService → Result (MarketHoursStatus × MarketHoursService)
  get_category_status category now service = do
    normalized ← normalize_category category
    if "overall" == normalized
        then (do (overview, checked) ← get_status now service; ok (overview.overall, checked))
        else (do status ← compute_category_status normalized now service; ok (status, service))

  unfoldable pub get_instrument_status :
      String → Time → MarketHoursService → Result (MarketHoursStatus × MarketHoursService)
  get_instrument_status instrument now service = do
    category ← instrument_market_category instrument
    get_category_status category now service

  -- The candidates of `next_market_open_at` from one category.
  unfoldable pub follow_up : MarketHoursStatus → MarketHoursService → Result (List Time)
  follow_up status service = elim status.is_market_open [
    | true ↦ elim status.next_close_at [
      | some close ↦ do
        later ← compute_category_status status.category (close + seconds 1) service
        ok (present (later.next_open_at ∷ []))
      | none ↦ ok (present (status.next_open_at ∷ []))
    ]
    | false ↦ ok (present (status.next_open_at ∷ []))
  ]

  unfoldable pub next_market_open_at :
      Time → MarketHoursService → Result (Option Time × MarketHoursService)
  next_market_open_at now service = do
    (overview, checked) ← get_status now service
    if overview.overall.is_market_open
        then (do
          fx ← follow_up overview.fx checked
          metals ← follow_up overview.metals checked
          ok (earliest (fx ++ metals), checked))
        else ok (overview.overall.next_open_at, checked)
