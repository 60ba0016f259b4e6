-- ===== src/Alerts/Indicator/Calls.antt =====
-- Calls on the indicator alerts, one after another (data/persistence/trade_store.py).
use oanda_v.Prelude.{
  ℕ, ◌≡◌, refl, sym, subst, ◌∙◌, String, false, Option, none, some, List, map, filter, nat_key, inl,
  inr, ok, Bool-cases, arith,
}
use oanda_v.Prelude.Int.{ℤ, int_key}
use oanda_v.Prelude.Steps.{Steps}
use oanda_v.Prelude.Sorting.{sort_by}
use oanda_v.CandlePolicy.{Time}
use oanda_v.Alerts.{cancel_documents}
use oanda_v.Alerts.Fields.{AlertStatus, is_pending}
use oanda_v.Alerts.Tables.{IsTable, contracts, update_documents-valid, changed-IsTable, change_at}
use oanda_v.Alerts.Following.{Follows, Follows-trans, rewrite-Follows, change_at-Follows}
use oanda_v.Alerts.Indicator.{
  IndicatorAlert, validate_indicator_alert, indicator_kind, get_indicator_alert,
  mark_indicator_alert_fired, fired_indicator_alert, cancel_indicator_alert,
  cancelled_indicator_alert, indicator_belongs_to, cancel_indicator_alert_for_chat,
  is_indicator_selected, cancel_indicator_alerts_for_chat,
}

fired-IsContract :
    (t : Time) (a : IndicatorAlert)
    → validate_indicator_alert a ≡ ok tt
    → validate_indicator_alert (fired_indicator_alert t a) ≡ ok tt
unfolding validate_indicator_alert
fired-IsContract t a h = ground arith

cancelled-IsContract :
    (a : IndicatorAlert)
    → validate_indicator_alert a ≡ ok tt
    → validate_indicator_alert (cancelled_indicator_alert a) ≡ ok tt
unfolding validate_indicator_alert
cancelled-IsContract a h = ground arith

-- Cancelling for a chat never fails on a well-formed table: it cancels what is selected, returns
-- it by id, and leaves the other alerts as they are.
pub cancel_indicator_alerts_for_chat-valid :
    (chat_id : ℤ) (instrument granularity indicator : Option String) (statuses : List AlertStatus)
    (table : List IndicatorAlert)
    → IsTable indicator_kind table
    → cancel_indicator_alerts_for_chat chat_id instrument granularity indicator statuses table
      ≡ ok (
        sort_by
            (λ (a : IndicatorAlert). a.id)
            (map cancelled_indicator_alert (
              filter
                (is_indicator_selected chat_id instrument granularity indicator statuses)
                table)),
        map
            (change_at
              (is_indicator_selected chat_id instrument granularity indicator statuses)
              cancelled_indicator_alert)
            table,
      )
unfolding cancel_indicator_alerts_for_chat cancel_documents
cancel_indicator_alerts_for_chat-valid chat_id instrument granularity indicator statuses table h =
    rw
      (update_documents-valid indicator_kind
        (is_indicator_selected chat_id instrument granularity indicator statuses)
        cancelled_indicator_alert (λ a. refl) cancelled-IsContract table
        (contracts indicator_kind table h))
      refl

-- What the later alert keeps of the earlier one: what it watches, and that it is no longer pending.
pub record Keeps (a a' : IndicatorAlert) : Type 0 where
  pub instrument : a'.instrument ≡ a.instrument
  pub granularity : a'.granularity ≡ a.granularity
  pub indicator : a'.indicator ≡ a.indicator
  pub condition : a'.condition ≡ a.condition
  pub threshold : a'.threshold ≡ a.threshold
  pub repetition : a'.repeat ≡ a.repeat
  pub cooloff : a'.cooloff_minutes ≡ a.cooloff_minutes
  pub chat : a'.chat_id ≡ a.chat_id
  pub settled : is_pending a.status ≡ false → is_pending a'.status ≡ false

-- A change of the status alone, to one that is not pending.
settled-Keeps :
    (a : IndicatorAlert) (s : AlertStatus) (t : Option Time)
    → (is_pending a.status ≡ false → is_pending s ≡ false)
    → Keeps a (record a { status = s; fired_at = t })
settled-Keeps a s t h = record {
  instrument = refl;
  granularity = refl;
  indicator = refl;
  condition = refl;
  threshold = refl;
  repetition = refl;
  cooloff = refl;
  chat = refl;
  settled = h;
}

Keeps-refl : (a : IndicatorAlert) → Keeps a a
Keeps-refl a = settled-Keeps a a.status a.fired_at (λ h. h)

Keeps-trans : (a b c : IndicatorAlert) → Keeps a b → Keeps b c → Keeps a c
Keeps-trans a b c f g = record {
  instrument = g.instrument ∙ f.instrument;
  granularity = g.granularity ∙ f.granularity;
  indicator = g.indicator ∙ f.indicator;
  condition = g.condition ∙ f.condition;
  threshold = g.threshold ∙ f.threshold;
  repetition = g.repetition ∙ f.repetition;
  cooloff = g.cooloff ∙ f.cooloff;
  chat = g.chat ∙ f.chat;
  settled = λ h. g.settled (f.settled h);
}

-- A call that changes alerts which are there, and returns.
pub data IndicatorMove (table table' : List IndicatorAlert) : Type 0 where
  fire :
      (alert_id : ℕ) (t : Time) (b : Option IndicatorAlert)
      → mark_indicator_alert_fired alert_id t table ≡ ok (b, table')
      → IndicatorMove table table'
  cancel :
      (alert_id : ℕ) (b : Option IndicatorAlert)
      → cancel_indicator_alert alert_id table ≡ ok (b, table')
      → IndicatorMove table table'
  cancel_own :
      (alert_id : ℕ) (chat_id : ℤ) (b : Option IndicatorAlert)
      → cancel_indicator_alert_for_chat alert_id chat_id table ≡ ok (b, table')
      → IndicatorMove table table'
  cancel_all :
      (chat_id : ℤ) (instrument granularity indicator : Option String) (statuses : List AlertStatus)
      (bs : List IndicatorAlert)
      → cancel_indicator_alerts_for_chat chat_id instrument granularity indicator statuses table
        ≡ ok (bs, table')
      → IndicatorMove table table'

-- The table is still well-formed, and has all the alerts that it had.
abbrev pub Moved : List IndicatorAlert → List IndicatorAlert → Type 0
Moved table table' = IsTable indicator_kind table' × Follows indicator_kind Keeps table table'

cancel-Moved :
    (alert_id : ℕ) (b : Option IndicatorAlert) (table table' : List IndicatorAlert)
    → IsTable indicator_kind table
    → cancel_indicator_alert alert_id table ≡ ok (b, table')
    → Moved table table'
unfolding cancel_indicator_alert
cancel-Moved alert_id b table table' h r =
    rewrite-Follows indicator_kind Keeps Keeps-refl alert_id _ cancelled_indicator_alert table b
      table' h refl (λ a. refl) (λ a _. settled-Keeps a AlertStatus.cancelled none (λ _. refl)) r

IndicatorMove-Moved :
    (table table' : List IndicatorAlert)
    → IndicatorMove table table'
    → IsTable indicator_kind table
    → Moved table table'
unfolding mark_indicator_alert_fired cancel_indicator_alert_for_chat
IndicatorMove-Moved table table' (IndicatorMove.fire alert_id t b r) h =
    rewrite-Follows indicator_kind Keeps Keeps-refl alert_id _ (fired_indicator_alert t) table b
      table' h refl (λ a. refl) (λ a _. settled-Keeps a AlertStatus.fired (some t) (λ _. refl)) r
IndicatorMove-Moved table table' (IndicatorMove.cancel alert_id b r) h =
    cancel-Moved alert_id b table table' h r
IndicatorMove-Moved table table' (IndicatorMove.cancel_own alert_id chat_id b r) h =
    elim (Bool-cases (indicator_belongs_to chat_id (get_indicator_alert alert_id table))) [
      | inl e ↦ cancel-Moved alert_id b table table' h (rw e at r)
      | inr e ↦
          let r' = rw e at r in
          let same : table' ≡ table = cc in
          subst (Moved table) (sym same) (h, λ n a f. (a, f, Keeps-refl a))
    ]
IndicatorMove-Moved table table' (IndicatorMove.cancel_all c i g k ss bs r) h =
    let selected = is_indicator_selected c i g k ss in
    let r' = rw (cancel_indicator_alerts_for_chat-valid c i g k ss table h) at r in
    let e : map (change_at selected cancelled_indicator_alert) table ≡ table' = cc in
    subst (Moved table) e (
      changed-IsTable indicator_kind selected cancelled_indicator_alert (λ a. refl)
          cancelled-IsContract table h,
      change_at-Follows indicator_kind Keeps Keeps-refl selected cancelled_indicator_alert table
          (λ a. settled-Keeps a AlertStatus.cancelled none (λ _. refl)) (λ a. refl)
          cancelled-IsContract,
    )

-- Any sequence of calls that fire and cancel indicator alerts keeps the table well-formed and
-- every alert in it. An alert keeps everything that it watches, and once it has fired or is
-- cancelled it is never pending again, a repeating one included.
pub indicator_moves-Follows :
    (table table' : List IndicatorAlert)
    → Steps IndicatorMove table table'
    → IsTable indicator_kind table
    → Moved table table'
indicator_moves-Follows table _ Steps.done h = (h, λ n a f. (a, f, Keeps-refl a))
indicator_moves-Follows table table' (Steps.step {t = t} r rs) h =
    let (h', first) = IndicatorMove-Moved table t r h in
    let (h'', rest) = indicator_moves-Follows t table' rs h' in
    (h'', Follows-trans indicator_kind Keeps Keeps-trans table t table' first rest)
