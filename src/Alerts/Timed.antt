-- ===== src/Alerts/Timed.antt =====
-- Time alerts (core/models.py, data/persistence/trade_store.py). A local time is what its text
-- says, by numbers; the text itself is left out, and so is a text that names no time.
pub mod Calls
use mathlib.Core.Option
use oanda_v.Prelude.{
  ℕ, ◌+◌, ◌%◌, String, Bool, true, false, ◌&&◌, ◌||◌, not, Option, none, some, List, [], ◌∷◌, ◌++◌,
  nat_key, string_key, ◌==◌, any, leb, if◌then◌else◌, Result, ok, raise, raise_if, Error,
}
use oanda_v.Prelude.Int.{ℤ, int_key}
use oanda_v.Prelude.Results.{◌>>=◌, ◌>>◌}
use oanda_v.Prelude.Dict.{or_else}
use oanda_v.CandlePolicy.{Time}
use oanda_v.Contracts.Trade.{is_some}
use oanda_v.Alerts.{
  Kind, write_document, get_document, list_documents, rewrite, resolve_alert_id, next_numeric_id,
}
use oanda_v.Alerts.Fields.{allows_id}

-- `TimeAlertKind`
pub data TimeAlertKind : Type 0 where
  fixed_time session : TimeAlertKind

-- `TimeAlertStatus`
pub data TimeAlertStatus : Type 0 where
  active completed cancelled : TimeAlertStatus

-- `TimeAlertSchedule`
pub data TimeAlertSchedule : Type 0 where
  once daily session : TimeAlertSchedule

-- `TimeAlertSessionName`
pub data TimeAlertSessionName : Type 0 where
  london newyork market_open : TimeAlertSessionName

-- A text in the form HH:MM, or YYYY-MM-DD HH:MM.
pub data LocalTime : Type 0 where
  clock : ℕ → ℕ → LocalTime
  dated : ℕ → ℕ → ℕ → ℕ → ℕ → LocalTime

abbrev pub is_leap : ℕ → Bool
is_leap year = year % 4 == 0 && (not (year % 100 == 0) || year % 400 == 0)

abbrev pub days_in_month : ℕ → ℕ → ℕ
days_in_month year month =
    if month == 2
    then if is_leap year then 29 else 28
    else if any (λ m. m == month) (4 ∷ 6 ∷ 9 ∷ 11 ∷ [])
    then 30
    else 31

-- Whether `normalize_time_alert_local_time` accepts.
abbrev pub is_local_time : LocalTime → Bool
is_local_time (LocalTime.clock hours minutes) = leb hours 23 && leb minutes 59
is_local_time (LocalTime.dated year month day hours minutes) =
    leb 1 year
    && leb year 9999
    && leb 1 month
    && leb month 12
    && leb 1 day
    && leb day (days_in_month year month)
    && leb hours 23
    && leb minutes 59

abbrev pub is_dated : LocalTime → Bool
is_dated (LocalTime.clock _ _) = false
is_dated (LocalTime.dated _ _ _ _ _) = true

pub record TimeAlert : Type 0 where
  pub id : ℕ
  pub chat_id : ℤ
  pub kind : TimeAlertKind
  pub status : TimeAlertStatus
  pub schedule : TimeAlertSchedule
  pub timezone_name : String
  pub local_time : Option LocalTime
  pub session_name : Option TimeAlertSessionName
  pub note : Option String
  pub created_at : Time
  pub next_fire_at : Option Time
  pub last_fired_at : Option Time

-- What a caller gives: `setdefault` fills in the rest.
pub record TimeAlertPayload : Type 0 where
  pub id : Option ℕ
  pub chat_id : ℤ
  pub kind : TimeAlertKind
  pub status : Option TimeAlertStatus
  pub schedule : TimeAlertSchedule
  pub timezone_name : String
  pub local_time : Option LocalTime
  pub session_name : Option TimeAlertSessionName
  pub note : Option String
  pub created_at : Option Time
  pub next_fire_at : Option Time
  pub last_fired_at : Option Time

abbrev pub is_bad_local_time : Option LocalTime → Bool
is_bad_local_time none = false
is_bad_local_time (some t) = not (is_local_time t)

abbrev pub is_session_schedule : TimeAlertSchedule → Bool
is_session_schedule TimeAlertSchedule.session = true
is_session_schedule TimeAlertSchedule.once = false
is_session_schedule TimeAlertSchedule.daily = false

abbrev pub is_once : TimeAlertSchedule → Bool
is_once TimeAlertSchedule.once = true
is_once TimeAlertSchedule.daily = false
is_once TimeAlertSchedule.session = false

abbrev pub is_dated_option : Option LocalTime → Bool
is_dated_option none = false
is_dated_option (some t) = is_dated t

-- The part of the contract that depends on the kind.
unfoldable pub validate_kind :
    TimeAlertKind
    → TimeAlertSchedule
    → Option LocalTime
    → Option TimeAlertSessionName
    → Result (Unit {0})
validate_kind TimeAlertKind.fixed_time schedule local_time session_name = do
  raise_if (not (is_some local_time)) Error.value_error
  raise_if (is_some session_name) Error.value_error
  raise_if (is_session_schedule schedule) Error.value_error
  raise_if (is_dated_option local_time && not (is_once schedule)) Error.value_error
validate_kind TimeAlertKind.session schedule local_time session_name = do
  raise_if (not (is_some session_name)) Error.value_error
  raise_if (is_some local_time) Error.value_error
  raise_if (not (is_session_schedule schedule)) Error.value_error

-- The part that depends on the status.
unfoldable pub validate_fire_times : TimeAlertStatus → Option Time → Option Time → Result (Unit {0})
validate_fire_times TimeAlertStatus.active next_fire_at last_fired_at =
    raise_if (not (is_some next_fire_at)) Error.value_error
validate_fire_times TimeAlertStatus.completed next_fire_at last_fired_at = do
  raise_if (not (is_some last_fired_at)) Error.value_error
  raise_if (is_some next_fire_at) Error.value_error
validate_fire_times TimeAlertStatus.cancelled next_fire_at last_fired_at = ok tt

-- `timezone_name` is taken after `strip`.
unfoldable pub validate_time_alert : TimeAlert → Result (Unit {0})
validate_time_alert a = do
  raise_if (a.id == 0) Error.value_error
  raise_if (a.timezone_name == "") Error.value_error
  raise_if (is_bad_local_time a.local_time) Error.value_error
  validate_kind a.kind a.schedule a.local_time a.session_name
  validate_fire_times a.status a.next_fire_at a.last_fired_at

abbrev pub time_kind : Kind TimeAlert
time_kind = record { id_of = λ (a : TimeAlert). a.id; validate = validate_time_alert }

abbrev pub time_with_defaults : Time → ℕ → TimeAlertPayload → TimeAlert
time_with_defaults now id p = record {
  id = id;
  chat_id = p.chat_id;
  kind = p.kind;
  status = or_else TimeAlertStatus.active p.status;
  schedule = p.schedule;
  timezone_name = p.timezone_name;
  local_time = p.local_time;
  session_name = p.session_name;
  note = p.note;
  created_at = or_else now p.created_at;
  next_fire_at = p.next_fire_at;
  last_fired_at = p.last_fired_at;
}

unfoldable pub upsert_time_alert :
    Time → TimeAlertPayload → List TimeAlert → Result (TimeAlert × List TimeAlert)
upsert_time_alert now p table =
    write_document time_kind (time_with_defaults now (resolve_alert_id time_kind p.id table) p)
      table

-- One of the new alerts, by the rest of the loop.
unfoldable pub validated_checked :
    Result (Unit {0}) → TimeAlert → Result (List TimeAlert) → Result (List TimeAlert)
validated_checked (raise _) a rest = raise Error.persistence_error
validated_checked (ok _) a rest = rest >>= λ validated_alerts. ok (a ∷ validated_alerts)

-- The loop that validates the new alerts, with ids from `next_id` on.
unfoldable pub validated_alerts : Time → ℕ → List TimeAlertPayload → Result (List TimeAlert)
validated_alerts now next_id [] = ok []
validated_alerts now next_id (p ∷ payloads) =
    let a = time_with_defaults now next_id p in
    validated_checked (validate_time_alert a) a (validated_alerts now (next_id + 1) payloads)

-- All the alerts are validated before the first is inserted.
unfoldable pub create_time_alerts :
    Time → List TimeAlertPayload → List TimeAlert → Result (List TimeAlert × List TimeAlert)
create_time_alerts now payloads table = do
  created ← validated_alerts now (next_numeric_id time_kind table) payloads
  ok (created, table ++ created)

abbrev pub get_time_alert : ℕ → List TimeAlert → Option TimeAlert
get_time_alert alert_id table = get_document time_kind alert_id table

abbrev pub same_time_status : TimeAlertStatus → TimeAlertStatus → Bool
same_time_status TimeAlertStatus.active TimeAlertStatus.active = true
same_time_status TimeAlertStatus.completed TimeAlertStatus.completed = true
same_time_status TimeAlertStatus.cancelled TimeAlertStatus.cancelled = true
same_time_status _ _ = false

abbrev pub allows_time_status : Option (List TimeAlertStatus) → TimeAlertStatus → Bool
allows_time_status none s = true
allows_time_status (some statuses) s = any (λ t. same_time_status t s) statuses

abbrev pub list_time_alerts :
    Option (List TimeAlertStatus) → Option ℤ → List TimeAlert → List TimeAlert
list_time_alerts statuses chat_id table =
    list_documents time_kind
      (λ (a : TimeAlert). allows_time_status statuses a.status && allows_id chat_id a.chat_id) table

abbrev pub list_active_time_alerts : List TimeAlert → List TimeAlert
list_active_time_alerts table = list_time_alerts (some (TimeAlertStatus.active ∷ [])) none table

abbrev pub list_active_time_alerts_for_chat : ℤ → List TimeAlert → List TimeAlert
list_active_time_alerts_for_chat chat_id table =
    list_time_alerts (some (TimeAlertStatus.active ∷ [])) (some chat_id) table

abbrev pub triggered_status : Option Time → TimeAlertStatus
triggered_status none = TimeAlertStatus.completed
triggered_status (some _) = TimeAlertStatus.active

abbrev pub triggered_time_alert : Time → Option Time → TimeAlert → TimeAlert
triggered_time_alert fired_at next_fire_at a = record a {
  status = triggered_status next_fire_at;
  last_fired_at = some fired_at;
  next_fire_at = next_fire_at;
}

unfoldable pub mark_time_alert_triggered :
    ℕ → Time → Option Time → List TimeAlert → Result (Option TimeAlert × List TimeAlert)
mark_time_alert_triggered alert_id fired_at next_fire_at table =
    rewrite time_kind (get_time_alert alert_id table) (triggered_time_alert fired_at next_fire_at)
      table

abbrev pub cancelled_time_alert : TimeAlert → TimeAlert
cancelled_time_alert a = record a { status = TimeAlertStatus.cancelled; next_fire_at = none }

unfoldable pub cancel_time_alert : ℕ → List TimeAlert → Result (Option TimeAlert × List TimeAlert)
cancel_time_alert alert_id table =
    rewrite time_kind (get_time_alert alert_id table) cancelled_time_alert table

abbrev pub time_belongs_to : ℤ → Option TimeAlert → Bool
time_belongs_to chat_id none = false
time_belongs_to chat_id (some existing) = existing.chat_id == chat_id

unfoldable pub cancel_time_alert_for_chat :
    ℕ → ℤ → List TimeAlert → Result (Option TimeAlert × List TimeAlert)
cancel_time_alert_for_chat alert_id chat_id table =
    if time_belongs_to chat_id (get_time_alert alert_id table)
    then cancel_time_alert alert_id table
    else ok (none, table)
