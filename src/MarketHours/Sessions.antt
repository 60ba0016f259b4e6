-- ===== src/MarketHours/Sessions.antt =====
-- What a category's status says of its sessions (data/market_hours.py).
use oanda_v.Prelude.{
  ℕ, ltb_false→le, ◌≤◌, ◌<◌, ◌≡◌, ◌⊎◌, inl, inr, refl, ap, sym, subst, String, true, false, Option,
  none, some, List, [], ◌∷◌, nat_key, string_key, ltb, leb, Result, ok, arith, Bool-cases,
  Option-cases, leb→le, leb_false→lt, ltb→lt, lt→ltb, All, All-map, Any, Any-map,
}
use oanda_v.Prelude.Dict.{lookup}
use oanda_v.CandlePolicy.{Time}
use oanda_v.MarketHours.{
  Session, Calendar, Scan, scan, MarketHoursStatus, MarketHoursService, normalize_category,
  schedule_around, schedule_after, find_next_open_after, first_open_after, status_of,
  compute_category_status,
}

-- Sessions take some time, and come one after the other.
abbrev pub IsOrdered : List Session → Type 0
IsOrdered [] = Unit
IsOrdered (row ∷ rows) =
    (row.market_open < row.market_close)
    × All (λ (r : Session). row.market_close ≤ r.market_open) rows
    × IsOrdered rows

abbrev pub IsIn : Time → Session → Type 0
IsIn now row = (row.market_open ≤ now) × (now < row.market_close)

-- A session is over, or has not begun.
abbrev pub IsOut : Time → Session → Type 0
IsOut now row = (row.market_close ≤ now) ⊎ (now < row.market_open)

-- The first opening of the sessions that is later than `now`.
abbrev pub IsNext : Time → List Session → Option Time → Type 0
IsNext now rows none = All (λ (r : Session). r.market_open ≤ now) rows
IsNext now rows (some t) =
    (now < t)
    × Any (λ (r : Session). r.market_open ≡ t) rows
    × All (λ (r : Session). (r.market_open ≤ now) ⊎ (t ≤ r.market_open)) rows

-- The next opening of a calendar: the first later one of the schedule from a week before to two weeks
-- ahead, or, where that has none, the first later one of the schedule from now on, if any.
abbrev pub IsNextOpen : Calendar → Time → Option Time → Type 0
IsNextOpen c now next =
    ((t : Time) × (next ≡ some t) × IsNext now (schedule_around c now) (some t))
    ⊎ (IsNext now (schedule_around c now) none × IsNext now (schedule_after c now) next)

-- A status tells whether `now` lies in one of the sessions. If it does, the status has the close of
-- that session, and otherwise the next opening.
pub data Reports (c : Calendar) (now : Time) (s : MarketHoursStatus) : Type 0 where
  reports_open :
      s.is_market_open ≡ true
      → Any
          (λ (r : Session). IsIn now r × (s.next_close_at ≡ some r.market_close))
          (schedule_around c now)
      → s.next_open_at ≡ none
      → Reports c now s
  reports_closed :
      s.is_market_open ≡ false
      → All (IsOut now) (schedule_around c now)
      → IsNextOpen c now s.next_open_at
      → s.next_close_at ≡ none
      → Reports c now s

abbrev Scanned : Time → List Session → Scan → Type 0
Scanned now rows s =
    ((row : Session) × (s.active_row ≡ some row)
      × Any (λ (r : Session). IsIn now r × (row ≡ r)) rows)
    ⊎ ((s.active_row ≡ none) × All (IsOut now) rows × IsNext now rows s.next_open)

IsNext-passed :
    (now : Time) (next : Option Time) (row : Session) (rows : List Session)
    → row.market_open ≤ now
    → IsNext now rows next
    → IsNext now (row ∷ rows) next
IsNext-passed now none row rows h k = (h, k)
IsNext-passed now (some t) row rows h (later, found, k) = (later, Any.there found, (inl h, k))

IsNext-first :
    (now : Time) (row : Session) (rows : List Session)
    → now < row.market_open
    → IsOrdered (row ∷ rows)
    → IsNext now (row ∷ rows) (some row.market_open)
IsNext-first now row rows later (positive, after, _) =
    (later, Any.here refl, (inr (omega arith), All-map (λ r le. inr (omega arith)) rows after))

Scanned-passed :
    (now : Time) (row : Session) (rows : List Session) (s : Scan)
    → row.market_open < row.market_close
    → row.market_close ≤ now
    → Scanned now rows s
    → Scanned now (row ∷ rows) s
Scanned-passed now row rows s positive h (inl (r, e, found)) = inl (r, e, Any.there found)
Scanned-passed now row rows s positive h (inr (e, rest, next)) =
    inr (e, (inl h, rest), IsNext-passed now s.next_open row rows (omega arith) next)

scan-nil :
    (now : Time) (closed : Option Time)
    → scan now [] closed ≡ record { active_row = none; next_open = none; previous_close = closed }
unfolding scan
scan-nil now closed = refl

scan-passed :
    (now : Time) (row : Session) (rows : List Session) (closed : Option Time)
    → leb row.market_close now ≡ true
    → scan now (row ∷ rows) closed ≡ scan now rows (some row.market_close)
unfolding scan
scan-passed now row rows closed over = rw over

scan-active :
    (now : Time) (row : Session) (rows : List Session) (closed : Option Time)
    → leb row.market_close now ≡ false
    → leb row.market_open now ≡ true
    → scan now (row ∷ rows) closed
      ≡ record { active_row = some row; next_open = none; previous_close = closed }
unfolding scan
scan-active now row rows closed ahead begun =
    rw (ahead, begun, lt→ltb now row.market_close (leb_false→lt _ _ ahead))

scan-coming :
    (now : Time) (row : Session) (rows : List Session) (closed : Option Time)
    → leb row.market_close now ≡ false
    → leb row.market_open now ≡ false
    → scan now (row ∷ rows) closed
      ≡ record { active_row = none; next_open = some row.market_open; previous_close = closed }
unfolding scan
scan-coming now row rows closed ahead future =
    rw (ahead, future, lt→ltb now row.market_open (leb_false→lt _ _ future))

scan_lem :
    (now : Time) (rows : List Session) (closed : Option Time)
    → IsOrdered rows
    → Scanned now rows (scan now rows closed)
scan_lem now [] closed h = subst (Scanned now []) (sym (scan-nil now closed)) (inr (refl, tt, tt))
scan_lem now (row ∷ rows) closed (positive, after, h) =
    elim (Bool-cases (leb row.market_close now)) [
      | inl over ↦ subst (Scanned now (row ∷ rows)) (sym (scan-passed now row rows closed over)) (
          Scanned-passed now row rows (scan now rows (some row.market_close)) positive
            (leb→le _ _ over) (scan_lem now rows (some row.market_close) h))
      | inr ahead ↦ elim (Bool-cases (leb row.market_open now)) [
        | inl begun ↦
            subst (Scanned now (row ∷ rows)) (sym (scan-active now row rows closed ahead begun))
              (inl (row, refl, Any.here ((leb→le _ _ begun, leb_false→lt _ _ ahead), refl)))
        | inr future ↦
            let later = leb_false→lt _ _ future in
            subst (Scanned now (row ∷ rows)) (sym (scan-coming now row rows closed ahead future)) (
              inr (
                refl,
                (inr later, All-map (λ r le. inr (omega arith)) rows after),
                IsNext-first now row rows later (positive, after, h),
              ))
      ]
    ]

first_open_after-IsNext :
    (now : Time) (rows : List Session)
    → IsOrdered rows
    → IsNext now rows (first_open_after now rows)
unfolding first_open_after
first_open_after-IsNext now [] h = tt
first_open_after-IsNext now (row ∷ rows) (positive, after, h) =
    elim (Bool-cases (ltb now row.market_open)) [
      | inl t ↦ rw t (IsNext-first now row rows (ltb→lt _ _ t) (positive, after, h))
      | inr f ↦ rw f (
          IsNext-passed now (first_open_after now rows) row rows (ltb_false→le _ _ f)
            (first_open_after-IsNext now rows h))
    ]

status_of_lem :
    (category : String) (c : Calendar) (now : Time) (s : Scan)
    → IsOrdered (schedule_after c now)
    → Scanned now (schedule_around c now) s
    → Reports c now (status_of category c now s.active_row s.next_open s.previous_close)
unfolding status_of find_next_open_after
status_of_lem category c now s ordered (inl (row, e, found)) = rw e (
    Reports.reports_open refl
      (Any-map {P = λ r. IsIn now r × (row ≡ r)}
        (λ r (inside, same). (inside, ap (λ (x : Session). some x.market_close) same))
        (schedule_around c now) found)
      refl)
status_of_lem category c now s ordered (inr (e, rest, next)) = elim (Option-cases s.next_open) [
  | inr (t, found) ↦
      rw e (rw found (Reports.reports_closed refl rest (inl (t, refl, rw found at next)) refl))
  | inl nothing ↦ rw e (
      rw nothing (
        Reports.reports_closed refl rest
          (inr (rw nothing at next, first_open_after-IsNext now (schedule_after c now) ordered))
          refl))
]

status_of-category :
    (category : String) (c : Calendar) (now : Time) (row : Option Session)
    (next closed : Option Time)
    → (status_of category c now row next closed).category ≡ category
unfolding status_of
status_of-category category c now none next closed = refl
status_of-category category c now (some row) next closed = refl

-- Where the category is known and its calendar loads, with sessions in order, its status is computed
-- under the name of the category, and tells whether `now` lies in a session. If it does, the status has
-- the close of that session, and otherwise the next opening: the first later one of the schedule around
-- `now`, or, where that has none, of the schedule from now on, if any.
pub compute_category_status-Reports :
    (load : String → Result Calendar) (category normalized name : String) (calendar : Calendar)
    (now : Time) (service : MarketHoursService)
    → normalize_category category ≡ ok normalized
    → lookup normalized service.calendar_names ≡ some name
    → load name ≡ ok calendar
    → ((a b : ℕ) → IsOrdered (calendar a b))
    → (status : MarketHoursStatus) × (compute_category_status load category now service ≡ ok status)
      × (status.category ≡ category)
      × Reports calendar now status
unfolding compute_category_status
compute_category_status-Reports load category normalized name calendar now service known named
      loaded ordered =
    let s = scan now (schedule_around calendar now) none in
    (
      status_of category calendar now s.active_row s.next_open s.previous_close,
      rw (known, named, loaded) refl,
      status_of-category category calendar now s.active_row s.next_open s.previous_close,
      status_of_lem category calendar now s (ordered _ _)
          (scan_lem now (schedule_around calendar now) none (ordered _ _)),
    )
