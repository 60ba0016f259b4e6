-- ===== src/MarketHours/Tests.antt =====
-- Market hours on two small calendars.
use oanda_v.Prelude.{
  ℕ, ◌+◌, ◌≡◌, refl, String, Option, none, some, [], ◌∷◌, string_key, ◌==◌, if◌then◌else◌, Result,
  ok, raise, Error, arith,
}
use oanda_v.Prelude.Dict.{lookup}
use oanda_v.CandlePolicy.{Time, hours}
use oanda_v.Instruments.{instrument_registry, get_instrument_spec}
use oanda_v.MarketHours.{
  Calendar, Session, MarketHoursStatus, MarketHoursOverview, MarketHoursService,
  default_calendar_names, category_aliases, normalize_category, instrument_market_category, scan,
  first_open_after, find_next_open_after, closed_reason, status_of, build_overall_status,
  compute_category_status, get_status, get_category_status, get_instrument_status, follow_up,
  next_market_open_at,
}
use oanda_v.MarketHours.Sessions.{Reports, compute_category_status-Reports}
use oanda_v.MarketHours.Overview.{Loads, Combines, IsEarliest, get_status-Reports}
use oanda_v.MarketHours.NextOpen.{FollowsUp, next_market_open_at-IsEarliest}

program : Unit {0}
unfolding lookup instrument_registry get_instrument_spec default_calendar_names category_aliases
    normalize_category instrument_market_category scan first_open_after find_next_open_after
    closed_reason status_of build_overall_status compute_category_status get_status
    get_category_status get_instrument_status follow_up next_market_open_at
program = tt

abbrev session : ℕ → ℕ → Session
session a b = record { market_open = hours a; market_close = hours b }

-- Hours since some Monday that is 100 weeks after the first one.
abbrev base : ℕ
base = 16_800

abbrev fx_calendar : Calendar
fx_calendar start end = session (base + 8) (base + 30) ∷ session (base + 32) (base + 54) ∷ []

abbrev metals_calendar : Calendar
metals_calendar start end = session (base + 9) (base + 31) ∷ session (base + 33) (base + 55) ∷ []

abbrev load_calendar : String → Result Calendar
load_calendar name = if "CME_FX" == name then ok fx_calendar else ok metals_calendar

abbrev service : MarketHoursService
service = record { calendar_names = default_calendar_names; last_status = none }

service-Loads : Loads load_calendar service
unfolding program
service-Loads = record {
  fx_name = "CME_FX";
  metals_name = "CMEGlobex_PreciousMetals";
  fx_calendar = fx_calendar;
  metals_calendar = metals_calendar;
  fx_named = refl;
  metals_named = refl;
  fx_loaded = refl;
  metals_loaded = refl;
  fx_ordered = λ a b. (omega arith, (omega arith, tt), (omega arith, tt, tt));
  metals_ordered = λ a b. (omega arith, (omega arith, tt), (omega arith, tt, tt));
}

abbrev answer : Result (MarketHoursStatus × MarketHoursService) → Result (String × Option Time)
answer (raise e) = raise e
answer (ok (s, _)) = ok (s.reason, s.next_open_at)

abbrev opening : Result (Option Time × MarketHoursService) → Result (Option Time)
opening (raise e) = raise e
opening (ok (t, _)) = ok t

statuses :
    (answer (get_instrument_status load_calendar "EUR_USD" (hours (base + 31)) service)
      ≡ ok ("after_close", some (hours (base + 32))))
    × (answer (get_instrument_status load_calendar "BCO_USD" (hours (base + 30)) service)
        ≡ ok ("partial_open", none))
    × (answer (get_instrument_status load_calendar "EUR_XYZ" (hours base) service)
        ≡ raise Error.key_error)
    × (opening (next_market_open_at load_calendar (hours (base + 10)) service)
        ≡ ok (some (hours (base + 32))))
unfolding program
statuses = (refl, refl, refl, refl)

compute_category_status-Reports_example :
    (s : MarketHoursStatus) × (compute_category_status load_calendar "metal"
        (hours (base + 32))
        service
      ≡ ok s)
    × (s.category ≡ "metal")
    × Reports metals_calendar (hours (base + 32)) s
unfolding program
compute_category_status-Reports_example =
    compute_category_status-Reports load_calendar "metal" "metals" "CMEGlobex_PreciousMetals"
      metals_calendar (hours (base + 32)) service refl refl refl
      (λ a b. (omega arith, (omega arith, tt), (omega arith, tt, tt)))

get_status-Reports_example :
    (o : MarketHoursOverview) × (get_status load_calendar (hours (base + 30)) service
      ≡ ok (o, record service { last_status = some o }))
    × Reports service-Loads.fx_calendar (hours (base + 30)) o.fx
    × Reports service-Loads.metals_calendar (hours (base + 30)) o.metals
    × Combines o.fx o.metals o.overall
get_status-Reports_example =
    get_status-Reports load_calendar service service-Loads (hours (base + 30))

next_market_open_at-IsEarliest_example :
    (next : Option Time) × (checked : MarketHoursService) × (a : Option Time) × (b : Option Time)
    × (next_market_open_at load_calendar (hours (base + 10)) service ≡ ok (next, checked))
    × FollowsUp service-Loads.fx_calendar (hours (base + 10)) a
    × FollowsUp service-Loads.metals_calendar (hours (base + 10)) b
    × IsEarliest a b next
next_market_open_at-IsEarliest_example =
    next_market_open_at-IsEarliest load_calendar service service-Loads (hours (base + 10))
