-- ===== src/MarketHours/NextOpen.antt =====
-- The next opening of any market (data/market_hours.py).
use oanda_v.Prelude.{
  Any, Any-map, ◌⊎◌, ◌||◌, false, sym, ◌∙◌, subst, ◌+◌, ◌≡◌, inl, inr, refl, String, Option, none,
  some, [], ◌∷◌, ◌++◌, Result, ok, Bool-cases, All,
}
use oanda_v.CandlePolicy.{Time, seconds}
use oanda_v.MarketHours.{
  Calendar, MarketHoursStatus, MarketHoursOverview, MarketHoursService, compute_category_status,
  Session, schedule_around, build_overall_status, get_status, follow_up, next_market_open_at,
  earliest, present,
}
use oanda_v.MarketHours.Sessions.{IsIn, IsOut, IsNextOpen, Reports}
use oanda_v.MarketHours.Overview.{
  Loads, Combines, IsEarliest, earliest-IsEarliest, close_found, fx-Reports, metals-Reports,
  overall-Combines,
}

-- What a calendar says of the next opening at an instant, if it lies in no session.
abbrev pub Upcoming : Calendar → Time → Option Time → Type 0
Upcoming c at next =
    (Any (IsIn at) (schedule_around c at) × (next ≡ none))
    ⊎ (All (IsOut at) (schedule_around c at) × IsNextOpen c at next)

-- The opening that follows: the next one where no session is running, and otherwise what comes a second
-- after the close of the running session.
abbrev pub FollowsUp : Calendar → Time → Option Time → Type 0
FollowsUp c now next =
    (All (IsOut now) (schedule_around c now) × IsNextOpen c now next)
    ⊎ ((r : Session) × Any (λ q. q ≡ r) (schedule_around c now)
        × IsIn now r
        × Upcoming c (r.market_close + seconds 1) next)

Reports-Upcoming :
    (c : Calendar) (now : Time) (s : MarketHoursStatus)
    → Reports c now s
    → Upcoming c now s.next_open_at
Reports-Upcoming c now s (Reports.reports_open _ found e) = inl (
  Any-map {P = λ r. IsIn now r × (s.next_close_at ≡ some r.market_close)} (λ r h. h.0)
      (schedule_around c now) found,
  e,
)
Reports-Upcoming c now s (Reports.reports_closed _ out next _) = inr (out, next)

Reports-closed :
    (c : Calendar) (now : Time) (s : MarketHoursStatus)
    → s.is_market_open ≡ false
    → Reports c now s
    → FollowsUp c now s.next_open_at
Reports-closed c now s closed (Reports.reports_open e _ _) = absurd (cc)
Reports-closed c now s closed (Reports.reports_closed _ out next _) = inl (out, next)

closed_overall :
    (fx metals s : MarketHoursStatus)
    → Combines fx metals s
    → s.is_market_open ≡ false
    → (fx.is_market_open ≡ false)
      × (metals.is_market_open ≡ false)
      × IsEarliest fx.next_open_at metals.next_open_at s.next_open_at
closed_overall fx metals s both closed =
    let shut : (fx.is_market_open || metals.is_market_open) ≡ false = sym both.opens ∙ closed in
    elim both.next [
      | inl (trading, _) ↦ absurd (cc)
      | inr (_, first) ↦ elim (Bool-cases fx.is_market_open) [
        | inl e ↦ let no = rw e at shut in absurd (cc)
        | inr e ↦ (e, rw e at shut, first)
      ]
    ]

present-append : (a b : Option Time) → present (a ∷ b ∷ []) ≡ present (a ∷ []) ++ present (b ∷ [])
present-append none b = refl
present-append (some a) b = refl

-- The candidate from one category, the status of which is computed again after its close.
follow_up_lem :
    (load : String → Result Calendar) (service : MarketHoursService) (calendar : Calendar)
    (category : String) (now : Time) (s : MarketHoursStatus)
    → ((later : Time)
        → (t : MarketHoursStatus) × (compute_category_status load category later service ≡ ok t)
          × (t.category ≡ category)
          × Reports calendar later t)
    → s.category ≡ category
    → Reports calendar now s
    → (a : Option Time) × (follow_up load s service ≡ ok (present (a ∷ [])))
      × FollowsUp calendar now a
unfolding follow_up
follow_up_lem load service calendar category now s again named (Reports.reports_open e found _) =
    let (r, ec, inside, listed) =
      close_found now s.next_close_at (schedule_around calendar now) found in
    let later = r.market_close + seconds 1 in
    let (t, computed, _, reports) = again later in
    (
      t.next_open_at,
      rw (e, ec, named, computed) refl,
      inr (r, listed, inside, Reports-Upcoming calendar later t reports),
    )
follow_up_lem load service calendar category now s again named
      (Reports.reports_closed e out next _) =
    (s.next_open_at, rw e refl, inl (out, next))

module _ (load : String → Result Calendar) (service : MarketHoursService)
    (h : Loads load service) where
  -- Where both calendars load, with sessions in order, `next_market_open_at` gives the earlier of two
  -- openings, or none where both are missing: for each calendar the next opening, or, where one of its
  -- sessions is running, the one that follows a second after the close of that session. An opening that
  -- follows is missing where the second after the close lies in a session again, or where the schedules
  -- have no later one.
  pub next_market_open_at-IsEarliest :
      (now : Time)
      → (next : Option Time) × (checked : MarketHoursService) × (a : Option Time) × (b : Option
          Time)
        × (next_market_open_at load now service ≡ ok (next, checked))
        × FollowsUp h.fx_calendar now a
        × FollowsUp h.metals_calendar now b
        × IsEarliest a b next
  unfolding next_market_open_at get_status
  next_market_open_at-IsEarliest now =
      let (fx, fx_status, fx_named, fx_reports) = fx-Reports load service h now in
      let (metals, metals_status, metals_named, metals_reports) =
        metals-Reports load service h now in
      let overall = build_overall_status now fx metals in
      let o : MarketHoursOverview = record { overall = overall; fx = fx; metals = metals } in
      let checked : MarketHoursService = record service { last_status = some o } in
      let kept : Loads load checked = record {
        fx_name = h.fx_name;
        metals_name = h.metals_name;
        fx_calendar = h.fx_calendar;
        metals_calendar = h.metals_calendar;
        fx_named = h.fx_named;
        metals_named = h.metals_named;
        fx_loaded = h.fx_loaded;
        metals_loaded = h.metals_loaded;
        fx_ordered = h.fx_ordered;
        metals_ordered = h.metals_ordered;
      } in
      let (a, fx_later, fx_next) =
        follow_up_lem load checked h.fx_calendar "fx" now fx (fx-Reports load checked kept) fx_named
          fx_reports in
      let (b, metals_later, metals_next) =
        follow_up_lem load checked h.metals_calendar "metals" now metals
          (metals-Reports load checked kept) metals_named metals_reports in
      elim (Bool-cases overall.is_market_open) [
        | inl trading ↦ (
          earliest (present (a ∷ []) ++ present (b ∷ [])),
          checked,
          a,
          b,
          simp (fx_status, metals_status, trading, fx_later, metals_later),
          fx_next,
          metals_next,
          subst (λ ts. IsEarliest a b (earliest ts)) (present-append a b) (earliest-IsEarliest a b),
        )
        | inr closed ↦
            let both =
              overall-Combines now h.fx_calendar h.metals_calendar fx metals fx_reports
                metals_reports in
            let (fx_out, metals_out, first) = closed_overall fx metals overall both closed in
            (
              overall.next_open_at,
              checked,
              fx.next_open_at,
              metals.next_open_at,
              simp (fx_status, metals_status, closed),
              Reports-closed h.fx_calendar now fx fx_out fx_reports,
              Reports-closed h.metals_calendar now metals metals_out metals_reports,
              first,
            )
      ]
