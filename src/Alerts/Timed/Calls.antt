-- ===== src/Alerts/Timed/Calls.antt =====
-- Calls on the time alerts (data/persistence/trade_store.py).
use oanda_v.Prelude.{
  ℕ, ◌+◌, ◌≡◌, refl, subst, sym, ◌∙◌, Option, none, some, List, [], ◌∷◌, ◌++◌, nat_key, ◌==◌, inl,
  inr, if◌then◌else◌, ok, All, arith, string_key, ap,
}
use oanda_v.Prelude.Results.{Result-cases}
use oanda_v.CandlePolicy.{Time}
use oanda_v.Alerts.{next_numeric_id, put_document}
use oanda_v.Alerts.Tables.{
  IsContract, IsTable, rewrite-valid, get_document-put, get_document-found,
  find_document-IsContract,
}
use oanda_v.Alerts.Fresh.{HasIds, fresh-IsTable}
use oanda_v.Alerts.Timed.{
  TimeAlert, TimeAlertPayload, TimeAlertStatus, time_kind, time_with_defaults, validate_time_alert,
  validate_fire_times, validated_checked, validated_alerts, create_time_alerts, get_time_alert,
  mark_time_alert_triggered, triggered_time_alert, cancel_time_alert, cancelled_time_alert,
}

triggered-IsContract :
    (t : Time) (next : Option Time) (a : TimeAlert)
    → validate_time_alert a ≡ ok tt
    → validate_time_alert (triggered_time_alert t next a) ≡ ok tt
unfolding validate_time_alert validate_fire_times
triggered-IsContract t none a h = ground arith
triggered-IsContract t (some n) a h = ground arith

cancelled-IsContract :
    (a : TimeAlert)
    → validate_time_alert a ≡ ok tt
    → validate_time_alert (cancelled_time_alert a) ≡ ok tt
unfolding validate_time_alert validate_fire_times
cancelled-IsContract a h = ground arith

-- What the new alerts are.
abbrev pub IsBatch : Time → ℕ → List TimeAlertPayload → List TimeAlert → Type 0
IsBatch now n [] [] = Unit
IsBatch now n [] (a ∷ created) = ⊥
IsBatch now n (p ∷ payloads) [] = ⊥
IsBatch now n (p ∷ payloads) (a ∷ created) =
    (a ≡ time_with_defaults now n p) × IsBatch now (n + 1) payloads created

validated_alerts-IsBatch :
    (now : Time) (n : ℕ) (payloads : List TimeAlertPayload) (created : List TimeAlert)
    → validated_alerts now n payloads ≡ ok created
    → IsBatch now n payloads created
      × HasIds time_kind n created
      × All (IsContract time_kind) created
unfolding validated_alerts validated_checked
validated_alerts-IsBatch now n [] [] h = (tt, tt, tt)
validated_alerts-IsBatch now n [] (a ∷ created) h = absurd (cc)
validated_alerts-IsBatch now n (p ∷ payloads) created h =
    elim (Result-cases (validate_time_alert (time_with_defaults now n p))) [
      | inr (x, v) ↦ let h' = rw v at h in absurd (cc)
      | inl (tt, v) ↦ elim (Result-cases (validated_alerts now (n + 1) payloads)) [
        | inr (x, r) ↦ let h' = rw (v, r) at h in absurd (cc)
        | inl (rest, r) ↦
            let same : time_with_defaults now n p ∷ rest ≡ created = cc (rw (v, r) at h) in
            let (batch, ids, valid) = validated_alerts-IsBatch now (n + 1) payloads rest r in
            subst
              (λ c.
                IsBatch now n (p ∷ payloads) c
                × HasIds time_kind n c
                × All (IsContract time_kind) c)
              same ((refl, batch), (refl, ids), (v, valid))
      ]
    ]

-- Creating alerts in one call either raises, or puts one new alert for each payload at the end of
-- the table, with consecutive fresh ids. It keeps the table well-formed, and what the old ids
-- have.
pub create_time_alerts-IsBatch :
    (now : Time) (payloads : List TimeAlertPayload) (table created table' : List TimeAlert)
    → IsTable time_kind table
    → create_time_alerts now payloads table ≡ ok (created, table')
    → IsBatch now (next_numeric_id time_kind table) payloads created
      × (table' ≡ table ++ created)
      × IsTable time_kind table'
unfolding create_time_alerts
create_time_alerts-IsBatch now payloads table created table' h r =
    elim (Result-cases (validated_alerts now (next_numeric_id time_kind table) payloads)) [
      | inr (x, c) ↦ let r' = rw c at r in absurd (cc)
      | inl (new, c) ↦
          let r' = rw c at r in
          let same : new ≡ created = cc in
          let (batch, ids, valid) =
            validated_alerts-IsBatch now (next_numeric_id time_kind table) payloads created
              (c ∙ ap ok same) in
          let e : table' ≡ table ++ created = cc in
          (batch, e, rw e (fresh-IsTable time_kind table created h valid ids))
    ]

-- An alert is triggered where it has fired and is active with its next time, or completed where there
-- is none; all else is as it was.
abbrev pub IsTriggered : Time → Option Time → TimeAlert → TimeAlert → Type 0
IsTriggered t none a b =
    b ≡ record a { status = TimeAlertStatus.completed; last_fired_at = some t; next_fire_at = none }
IsTriggered t (some next) a b =
    b
    ≡ record a { status = TimeAlertStatus.active; last_fired_at = some t; next_fire_at = some next }

triggered_time_alert-IsTriggered :
    (t : Time) (next : Option Time) (a : TimeAlert)
    → IsTriggered t next a (triggered_time_alert t next a)
triggered_time_alert-IsTriggered t none a = refl
triggered_time_alert-IsTriggered t (some next) a = refl

-- A stored alert that is triggered is read back with the time at which it fired, active where
-- there is a next time and completed where there is none, and a stored alert that is cancelled is
-- read back cancelled and with no next time; all else of it is as it was. Neither call fails on a
-- well-formed table, and both leave the other ids alone.
pub trigger_and_cancel_time_alert :
    (alert_id n : ℕ) (t : Time) (next : Option Time) (a : TimeAlert) (table : List TimeAlert)
    → IsTable time_kind table
    → get_time_alert alert_id table ≡ some a
    → ((table' : List TimeAlert) × (fired : TimeAlert) × (mark_time_alert_triggered alert_id t next
            table
          ≡ ok (some fired, table'))
        × IsTriggered t next a fired
        × (get_time_alert n table'
            ≡ (if alert_id == n then some fired else get_time_alert n table)))
      × ((table' : List TimeAlert) × (gone : TimeAlert) × (cancel_time_alert alert_id table
            ≡ ok (some gone, table'))
          × (gone ≡ record a { status = TimeAlertStatus.cancelled; next_fire_at = none })
          × (get_time_alert n table'
              ≡ (if alert_id == n then some gone else get_time_alert n table)))
unfolding mark_time_alert_triggered cancel_time_alert
trigger_and_cancel_time_alert alert_id n t next a table h found =
    let f = sym (get_document-found time_kind alert_id table h) ∙ found in
    let (id, valid) = find_document-IsContract time_kind alert_id a table h f in
    let fired = triggered-IsContract t next a valid in
    let gone = cancelled-IsContract a valid in
    (
      (
        put_document time_kind (triggered_time_alert t next a) table,
        triggered_time_alert t next a,
        rw found (rewrite-valid time_kind a (triggered_time_alert t next) table fired),
        triggered_time_alert-IsTriggered t next a,
        rw (← id) (get_document-put time_kind n (triggered_time_alert t next a) table fired),
      ),
      (
        put_document time_kind (cancelled_time_alert a) table,
        cancelled_time_alert a,
        rw found (rewrite-valid time_kind a cancelled_time_alert table gone),
        refl,
        rw (← id) (get_document-put time_kind n (cancelled_time_alert a) table gone),
      ),
    )
