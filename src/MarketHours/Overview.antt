-- ===== src/MarketHours/Overview.antt =====
-- What the overview says of the sessions of both categories (data/market_hours.py).
use oanda_v.Prelude.{
  ℕ, ◌⊎◌, ◌||◌, true, false, ◌≤◌, ◌≡◌, inl, inr, refl, String, Option, none, some, List, [], ◌∷◌,
  nat_key, string_key, leb, Result, ok, arith, Bool-cases, leb→le, leb_false→lt, Any,
}
use oanda_v.Prelude.Dict.{lookup}
use oanda_v.CandlePolicy.{Time}
use oanda_v.MarketHours.{
  Session, Calendar, MarketHoursStatus, MarketHoursOverview, MarketHoursService, normalize_category,
  category_aliases, build_overall_status, compute_category_status, get_status, earliest, present,
}
use oanda_v.MarketHours.Sessions.{IsOrdered, IsIn, Reports, compute_category_status-Reports}

-- A status with the close of a session has that close.
pub close_found :
    (now : Time) (next : Option Time) (rows : List Session)
    → Any (λ (r : Session). IsIn now r × (next ≡ some r.market_close)) rows
    → (r : Session) × (next ≡ some r.market_close) × IsIn now r × Any (λ q. q ≡ r) rows
close_found now next [] h = elim h [ ]
close_found now next (r ∷ rows) (Any.here (inside, e)) = (r, e, inside, Any.here refl)
close_found now next (r ∷ rows) (Any.there h) =
    let (q, e, inside, found) = close_found now next rows h in (q, e, inside, Any.there found)

abbrev IsNotAfter : Time → Option Time → Type 0
IsNotAfter t none = Unit
IsNotAfter t (some u) = t ≤ u

-- The earlier of two instants, either of which may be missing.
abbrev pub IsEarliest : Option Time → Option Time → Option Time → Type 0
IsEarliest a b none = (a ≡ none) × (b ≡ none)
IsEarliest a b (some t) = ((a ≡ some t) ⊎ (b ≡ some t)) × IsNotAfter t a × IsNotAfter t b

pub earliest-IsEarliest : (a b : Option Time) → IsEarliest a b (earliest (present (a ∷ b ∷ [])))
earliest-IsEarliest none none = (refl, refl)
earliest-IsEarliest none (some b) = (inr refl, tt, omega arith)
earliest-IsEarliest (some a) none = (inl refl, omega arith, tt)
earliest-IsEarliest (some a) (some b) = elim (Bool-cases (leb a b)) [
  | inl t ↦ rw t (inl refl, omega arith, leb→le _ _ t)
  | inr f ↦ rw f (inr refl, omega (arith, leb_false→lt _ _ f), omega arith)
]

earliest-one : (a : Option Time) → IsEarliest a none (earliest (present (a ∷ [])))
earliest-one none = (refl, refl)
earliest-one (some a) = (inl refl, omega arith, tt)

-- The overall status: a market is open if one of the two is. It then has the earlier of the closes of
-- the open ones, and otherwise the earlier of the two next openings.
pub record Combines (fx metals s : MarketHoursStatus) : Type 0 where
  pub opens : s.is_market_open ≡ (fx.is_market_open || metals.is_market_open)
  pub closes : IsEarliest fx.next_close_at metals.next_close_at s.next_close_at
  pub next :
      (((fx.is_market_open || metals.is_market_open) ≡ true) × (s.next_open_at ≡ none))
      ⊎ (((fx.is_market_open || metals.is_market_open) ≡ false)
          × IsEarliest fx.next_open_at metals.next_open_at s.next_open_at)

pub overall-Combines :
    (now : Time) (c c' : Calendar) (fx metals : MarketHoursStatus)
    → Reports c now fx
    → Reports c' now metals
    → Combines fx metals (build_overall_status now fx metals)
unfolding build_overall_status
overall-Combines now c c' fx metals (Reports.reports_open e _ _) (Reports.reports_open e' _ _) =
    record {
      opens = rw e refl;
      closes = rw (e, e') (earliest-IsEarliest fx.next_close_at metals.next_close_at);
      next = inl (rw e (refl, refl));
    }
overall-Combines now c c' fx metals (Reports.reports_open e _ _) (Reports.reports_closed e' _ _ f) =
    record {
      opens = rw e refl;
      closes = rw (e, e', f) (earliest-one fx.next_close_at);
      next = inl (rw e (refl, refl));
    }
overall-Combines now c c' fx metals (Reports.reports_closed e _ _ f) (Reports.reports_open e' _ _) =
    record {
      opens = rw (e, e') refl;
      closes = rw (e, e', f) (earliest-IsEarliest none metals.next_close_at);
      next = inl (rw (e, e') (refl, refl));
    }
overall-Combines now c c' fx metals (Reports.reports_closed e _ _ f)
      (Reports.reports_closed e' _ _ f') =
    record {
      opens = rw (e, e') refl;
      closes = rw (e, e', f, f') (refl, refl);
      next = inr (rw (e, e') (refl, earliest-IsEarliest fx.next_open_at metals.next_open_at));
    }

fx_known : normalize_category "fx" ≡ ok "fx"
unfolding normalize_category category_aliases lookup
fx_known = refl

metals_known : normalize_category "metals" ≡ ok "metals"
unfolding normalize_category category_aliases lookup
metals_known = refl

-- What is asked of the package: both calendars load, with sessions in order at any time.
pub record Loads (load : String → Result Calendar) (service : MarketHoursService) : Type 0 where
  pub fx_name : String
  pub metals_name : String
  pub fx_calendar : Calendar
  pub metals_calendar : Calendar
  pub fx_named : lookup "fx" service.calendar_names ≡ some fx_name
  pub metals_named : lookup "metals" service.calendar_names ≡ some metals_name
  pub fx_loaded : load fx_name ≡ ok fx_calendar
  pub metals_loaded : load metals_name ≡ ok metals_calendar
  pub fx_ordered : (a b : ℕ) → IsOrdered (fx_calendar a b)
  pub metals_ordered : (a b : ℕ) → IsOrdered (metals_calendar a b)

module _ (load : String → Result Calendar) (service : MarketHoursService)
    (h : Loads load service) where
  pub fx-Reports :
      (now : Time)
      → (s : MarketHoursStatus) × (compute_category_status load "fx" now service ≡ ok s)
        × (s.category ≡ "fx")
        × Reports h.fx_calendar now s
  fx-Reports now =
      compute_category_status-Reports load "fx" "fx" h.fx_name h.fx_calendar now service fx_known
        h.fx_named h.fx_loaded h.fx_ordered

  pub metals-Reports :
      (now : Time)
      → (s : MarketHoursStatus) × (compute_category_status load "metals" now service ≡ ok s)
        × (s.category ≡ "metals")
        × Reports h.metals_calendar now s
  metals-Reports now =
      compute_category_status-Reports load "metals" "metals" h.metals_name h.metals_calendar now
        service metals_known h.metals_named h.metals_loaded h.metals_ordered

  -- Where both calendars load, with sessions in order, `get_status` gives an overview, which it also
  -- keeps as the last one, and changes nothing else. Its FX and metals statuses tell whether `now` lies
  -- in a session of their calendar, with the close of that session, or else with the next opening, if
  -- any. The overall one tells whether `now` lies in a session of either, with the earlier of the closes,
  -- or else with the earlier of the openings.
  pub get_status-Reports :
      (now : Time)
      → (o : MarketHoursOverview) × (get_status load now service
          ≡ ok (o, record service { last_status = some o }))
        × Reports h.fx_calendar now o.fx
        × Reports h.metals_calendar now o.metals
        × Combines o.fx o.metals o.overall
  unfolding get_status
  get_status-Reports now =
      let (fx, fx_status, _, fx_reports) = fx-Reports now in
      let (metals, metals_status, _, metals_reports) = metals-Reports now in
      (
        record { overall = build_overall_status now fx metals; fx = fx; metals = metals },
        rw (fx_status, metals_status) refl,
        fx_reports,
        metals_reports,
        overall-Combines now h.fx_calendar h.metals_calendar fx metals fx_reports metals_reports,
      )
