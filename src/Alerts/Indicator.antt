-- ===== src/Alerts/Indicator.antt =====
-- Indicator alerts (core/models.py, data/persistence/trade_store.py). A threshold is a number of
-- smallest steps. Letters are ASCII.
pub mod Calls
use mathlib.Core.Option
use oanda_v.Prelude.{
  ℕ, zero, suc, ◌+◌, ◌-◌, String, Bool, true, false, ◌&&◌, ◌||◌, not, Option, none, some, List, [],
  ◌∷◌, nat_key, string_key, ◌==◌, leb, if◌then◌else◌, Result, ok, raise, raise_if, Error,
}
use oanda_v.Prelude.Int.{ℤ, int_key}
use oanda_v.Prelude.Results.{◌>>=◌, ◌>>◌}
use oanda_v.Prelude.Texts.{same_upper}
use oanda_v.Prelude.Dict.{or_else}
use oanda_v.CandlePolicy.{Time, get_timeframe_delta}
use oanda_v.Instruments.{get_instrument_spec}
use oanda_v.Contracts.Trade.{Price, is_some}
use oanda_v.Alerts.{
  Kind, write_document, get_document, list_documents, rewrite, cancel_documents, resolve_alert_id,
}
use oanda_v.Alerts.Fields.{
  AlertStatus, is_pending, is_fired, has_status, allows_text, allows_id, allows_status,
}

-- `IndicatorKind`
pub data IndicatorKind : Type 0 where
  rsi stoch macd sma_cross : IndicatorKind

abbrev pub indicator_value : IndicatorKind → String
indicator_value IndicatorKind.rsi = "RSI"
indicator_value IndicatorKind.stoch = "STOCH"
indicator_value IndicatorKind.macd = "MACD"
indicator_value IndicatorKind.sma_cross = "SMA_CROSS"

-- `IndicatorAlertCondition`
pub data IndicatorAlertCondition : Type 0 where
  above below cross_up cross_down : IndicatorAlertCondition

abbrev pub needs_threshold : IndicatorAlertCondition → Bool
needs_threshold IndicatorAlertCondition.above = true
needs_threshold IndicatorAlertCondition.below = true
needs_threshold IndicatorAlertCondition.cross_up = false
needs_threshold IndicatorAlertCondition.cross_down = false

pub record IndicatorAlert : Type 0 where
  pub id : ℕ
  pub instrument : String
  pub granularity : String
  pub indicator : IndicatorKind
  pub condition : IndicatorAlertCondition
  pub threshold : Option Price
  pub status : AlertStatus
  pub repeat : Bool
  pub cooloff_minutes : Option ℕ
  pub chat_id : ℤ
  pub notes : Option String
  pub created_at : Time
  pub fired_at : Option Time

-- What a caller gives: `setdefault` fills in the rest.
pub record IndicatorAlertPayload : Type 0 where
  pub id : Option ℕ
  pub instrument : String
  pub granularity : String
  pub indicator : IndicatorKind
  pub condition : IndicatorAlertCondition
  pub threshold : Option Price
  pub status : Option AlertStatus
  pub repeat : Option Bool
  pub cooloff_minutes : Option ℕ
  pub chat_id : ℤ
  pub notes : Option String
  pub created_at : Option Time
  pub fired_at : Option Time

-- `Field(default=None, gt=0)`
abbrev pub is_zero_count : Option ℕ → Bool
is_zero_count none = false
is_zero_count (some n) = n == 0

unfoldable pub validate_indicator_alert : IndicatorAlert → Result (Unit {0})
validate_indicator_alert a = do
  raise_if (a.id == 0) Error.value_error
  raise_if (is_zero_count a.cooloff_minutes) Error.value_error
  get_instrument_spec a.instrument
  get_timeframe_delta a.granularity
  raise_if (needs_threshold a.condition && not (is_some a.threshold)) Error.value_error
  raise_if (not (needs_threshold a.condition) && is_some a.threshold) Error.value_error
  raise_if (is_some a.cooloff_minutes && not a.repeat) Error.value_error
  raise_if (is_fired a.status && not (is_some a.fired_at)) Error.value_error
  raise_if (not (is_fired a.status) && is_some a.fired_at) Error.value_error

abbrev pub indicator_kind : Kind IndicatorAlert
indicator_kind = record {
  id_of = λ (a : IndicatorAlert). a.id;
  validate = validate_indicator_alert;
}

abbrev pub indicator_with_defaults : Time → ℕ → IndicatorAlertPayload → IndicatorAlert
indicator_with_defaults now id p = record {
  id = id;
  instrument = p.instrument;
  granularity = p.granularity;
  indicator = p.indicator;
  condition = p.condition;
  threshold = p.threshold;
  status = or_else AlertStatus.pending p.status;
  repeat = or_else false p.repeat;
  cooloff_minutes = p.cooloff_minutes;
  chat_id = p.chat_id;
  notes = p.notes;
  created_at = or_else now p.created_at;
  fired_at = p.fired_at;
}

unfoldable pub upsert_indicator_alert :
    Time
    → IndicatorAlertPayload
    → List IndicatorAlert
    → Result (IndicatorAlert × List IndicatorAlert)
upsert_indicator_alert now p table =
    write_document indicator_kind
      (indicator_with_defaults now (resolve_alert_id indicator_kind p.id table) p) table

abbrev pub get_indicator_alert : ℕ → List IndicatorAlert → Option IndicatorAlert
get_indicator_alert alert_id table = get_document indicator_kind alert_id table

abbrev pub list_indicator_alerts :
    Option (List AlertStatus) → Option ℤ → List IndicatorAlert → List IndicatorAlert
list_indicator_alerts statuses chat_id table =
    list_documents indicator_kind
      (λ (a : IndicatorAlert). allows_status statuses a.status && allows_id chat_id a.chat_id) table

abbrev pub list_pending_indicator_alerts : List IndicatorAlert → List IndicatorAlert
list_pending_indicator_alerts table =
    list_indicator_alerts (some (AlertStatus.pending ∷ [])) none table

abbrev pub list_pending_indicator_alerts_for_chat : ℤ → List IndicatorAlert → List IndicatorAlert
list_pending_indicator_alerts_for_chat chat_id table =
    list_indicator_alerts (some (AlertStatus.pending ∷ [])) (some chat_id) table

abbrev pub fired_indicator_alert : Time → IndicatorAlert → IndicatorAlert
fired_indicator_alert t a = record a { status = AlertStatus.fired; fired_at = some t }

unfoldable pub mark_indicator_alert_fired :
    ℕ → Time → List IndicatorAlert → Result (Option IndicatorAlert × List IndicatorAlert)
mark_indicator_alert_fired alert_id fired_at table =
    rewrite indicator_kind (get_indicator_alert alert_id table) (fired_indicator_alert fired_at)
      table

abbrev pub cancelled_indicator_alert : IndicatorAlert → IndicatorAlert
cancelled_indicator_alert a = record a { status = AlertStatus.cancelled; fired_at = none }

unfoldable pub cancel_indicator_alert :
    ℕ → List IndicatorAlert → Result (Option IndicatorAlert × List IndicatorAlert)
cancel_indicator_alert alert_id table =
    rewrite indicator_kind (get_indicator_alert alert_id table) cancelled_indicator_alert table

abbrev pub indicator_belongs_to : ℤ → Option IndicatorAlert → Bool
indicator_belongs_to chat_id none = false
indicator_belongs_to chat_id (some existing) = existing.chat_id == chat_id

unfoldable pub cancel_indicator_alert_for_chat :
    ℕ → ℤ → List IndicatorAlert → Result (Option IndicatorAlert × List IndicatorAlert)
cancel_indicator_alert_for_chat alert_id chat_id table =
    if indicator_belongs_to chat_id (get_indicator_alert alert_id table)
    then cancel_indicator_alert alert_id table
    else ok (none, table)

abbrev pub allows_indicator : Option String → IndicatorKind → Bool
allows_indicator none k = true
allows_indicator (some wanted) k = same_upper (indicator_value k) wanted

abbrev pub is_indicator_selected :
    ℤ → Option String → Option String → Option String → List AlertStatus → IndicatorAlert → Bool
is_indicator_selected chat_id instrument granularity indicator statuses a =
    a.chat_id == chat_id
    && has_status statuses a.status
    && allows_text instrument a.instrument
    && allows_text granularity a.granularity
    && allows_indicator indicator a.indicator

unfoldable pub cancel_indicator_alerts_for_chat :
    ℤ
    → Option String
    → Option String
    → Option String
    → List AlertStatus
    → List IndicatorAlert
    → Result (List IndicatorAlert × List IndicatorAlert)
cancel_indicator_alerts_for_chat chat_id instrument granularity indicator statuses table =
    cancel_documents indicator_kind
      (is_indicator_selected chat_id instrument granularity indicator statuses)
      cancelled_indicator_alert table
