-- ===== src/Alerts/Tests.antt =====
-- The alerts of two chats.
use oanda_v.Prelude.{
  arith, ℕ, ◌≡◌, refl, String, Bool, true, false, none, some, Option, List, [], ◌∷◌, ◌++◌,
  string_key, nat_key, ◌==◌, ok, ◌||◌, ◌⊎◌,
}
use oanda_v.Prelude.Int.{ℤ, pos, negsuc, int_key}
use oanda_v.Prelude.Dict.{lookup}
use oanda_v.Prelude.Steps.{Steps}
use oanda_v.Prelude.Sorting.{sort_by, insert_by}
use oanda_v.Prelude.Texts.{same_upper}
use oanda_v.Instruments.{get_instrument_spec, instrument_registry}
use oanda_v.CandlePolicy.{timeframe_deltas, get_timeframe_delta}
use oanda_v.Contracts.Trade.{is_symbol_from}
use oanda_v.Alerts.{
  find_document, put_document, max_id, write_checked, read_found, list_documents, rewrite,
  update_checked, update_documents, cancel_documents,
}
use oanda_v.Alerts.Fields.{AlertStatus}
use oanda_v.Alerts.Tables.{IsTable}
use oanda_v.Alerts.Price.{
  PriceAlert, PriceAlertPayload, AlertDirection, validate_price_alert, price_kind,
  upsert_price_alert, get_price_alert, mark_price_alert_fired, mark_price_alert_armed, arm_found,
  cancel_price_alert, cancel_price_alert_for_chat, cancel_price_alerts_for_chat, create_checked,
  create_grid, replace_price_alert_grid,
}
use oanda_v.Alerts.Price.Upsert.{get_price_alert-upsert}
use oanda_v.Alerts.Price.Grid.{replace_price_alert_grid-IsGrid, of_grid}
use oanda_v.Alerts.Price.Calls.{
  Keeps, PriceMove, PriceCall, price_moves-Follows, price_calls-IsTable,
}
use oanda_v.Alerts.Indicator.{
  IndicatorAlert, IndicatorKind, IndicatorAlertCondition, indicator_kind, validate_indicator_alert,
  mark_indicator_alert_fired, cancel_indicator_alert, cancel_indicator_alert_for_chat,
  cancel_indicator_alerts_for_chat,
}
use oanda_v.Alerts.Indicator.Calls.{IndicatorMove, Moved, indicator_moves-Follows}
use oanda_v.Alerts.Timed.{
  TimeAlert, TimeAlertPayload, TimeAlertKind, TimeAlertSchedule, LocalTime, validate_kind,
  validate_fire_times, validate_time_alert, time_kind, validated_checked, validated_alerts,
  create_time_alerts, get_time_alert, mark_time_alert_triggered, cancel_time_alert,
  time_with_defaults,
}
use oanda_v.Alerts.Timed.Calls.{create_time_alerts-IsBatch, IsBatch, trigger_and_cancel_time_alert}

program : Unit {0}
unfolding lookup sort_by insert_by same_upper get_instrument_spec instrument_registry
    timeframe_deltas get_timeframe_delta is_symbol_from find_document put_document max_id
    write_checked read_found list_documents rewrite update_checked update_documents cancel_documents
    validate_price_alert upsert_price_alert mark_price_alert_fired mark_price_alert_armed arm_found
    cancel_price_alert cancel_price_alert_for_chat cancel_price_alerts_for_chat create_checked
    create_grid replace_price_alert_grid validate_indicator_alert mark_indicator_alert_fired
    cancel_indicator_alert cancel_indicator_alert_for_chat cancel_indicator_alerts_for_chat
    validate_kind validate_fire_times validate_time_alert validated_checked validated_alerts
    create_time_alerts mark_time_alert_triggered cancel_time_alert
program = tt

abbrev live : String → Bool
live instrument = instrument == "EUR_USD" || instrument == "GBP_USD"

-- A group chat.
abbrev chat : ℤ
chat = negsuc 6

abbrev other_chat : ℤ
other_chat = pos 8

abbrev payload : PriceAlertPayload
payload = record {
  id = none;
  instrument = "EUR_USD";
  target_price = 110_000;
  direction = AlertDirection.above;
  status = none;
  armed = none;
  chat_id = chat;
  notes = none;
  created_at = none;
  fired_at = none;
}

abbrev alert : ℕ → ℤ → PriceAlert
alert id chat_id = record {
  id = id;
  instrument = "EUR_USD";
  target_price = 110_000;
  direction = AlertDirection.above;
  status = AlertStatus.pending;
  armed = false;
  chat_id = chat_id;
  notes = none;
  created_at = 50;
  fired_at = none;
}

abbrev table : List PriceAlert
table = alert 1 chat ∷ alert 4 other_chat ∷ []

table-IsTable : IsTable (price_kind live) table
unfolding validate_price_alert is_symbol_from
table-IsTable = (refl, (refl, tt), (refl, tt, tt))

-- One payload without an id, and one with the id of an alert of another chat.
get_price_alert-upsert_example :
    (get_price_alert live 5 (table ++ alert 5 chat ∷ []) ≡ some (alert 5 chat))
    × ((◌≡◌ {A = Option ℕ} (some 4) (some 4))
        ⊎ ((◌≡◌ {A = Option ℕ} (some 4) none) × (get_price_alert live 4 table ≡ none)))
unfolding program
get_price_alert-upsert_example = (
  (get_price_alert-upsert live 50 payload (alert 5 chat) table (table ++ alert 5 chat ∷ []) refl).0
      5,
  (get_price_alert-upsert live 50 (record payload { id = some 4 }) (alert 4 chat) table
      (alert 1 chat ∷ alert 4 chat ∷ []) refl).1,
)

-- Only alert 1 is a pending one of the group chat for EUR_USD.
abbrev grid_table : List PriceAlert
grid_table = table ++ record (alert 6 chat) { instrument = "GBP_USD" } ∷ []

abbrev replaced_grid : List PriceAlert
replaced_grid =
    record (alert 1 chat) { status = AlertStatus.cancelled }
    ∷ alert 4 other_chat
    ∷ record (alert 6 chat) { instrument = "GBP_USD" }
    ∷ record (alert 7 chat) { created_at = 60 }
    ∷ []

grid_table-IsTable : IsTable (price_kind live) grid_table
unfolding validate_price_alert is_symbol_from
grid_table-IsTable = (refl, (refl, (refl, tt)), (refl, (refl, tt), (refl, tt, tt)))

replace_price_alert_grid_example :
    (list_documents (price_kind live) (of_grid live 60 chat "EUR_USD") replaced_grid
      ≡ record (alert 7 chat) { created_at = 60 } ∷ [])
    × (find_document (price_kind live) 6 replaced_grid
        ≡ some (record (alert 6 chat) { instrument = "GBP_USD" }))
unfolding program
replace_price_alert_grid_example = (
  (replace_price_alert_grid-IsGrid live 60 chat "EUR_USD" (payload ∷ [])
      (record (alert 7 chat) { created_at = 60 } ∷ []) grid_table replaced_grid 6 grid_table-IsTable
      refl (omega arith)).1,
  (replace_price_alert_grid-IsGrid live 60 chat "EUR_USD" (payload ∷ [])
      (record (alert 7 chat) { created_at = 60 } ∷ []) grid_table replaced_grid 6 grid_table-IsTable
      refl (omega arith)).3,
)

-- Alert 1 is armed and fires, and its chat then cancels what is pending.
moves : Steps (PriceMove live) table (
    record (alert 1 chat) { status = AlertStatus.fired; fired_at = some 70 }
    ∷ alert 4 other_chat
    ∷ [])
unfolding program
moves = Steps.step (PriceMove.arm 1 (some (record (alert 1 chat) { armed = true })) refl) (
    Steps.step
      (PriceMove.fire 1 70
        (some (record (alert 1 chat) { status = AlertStatus.fired; fired_at = some 70 })) refl)
      (Steps.step (PriceMove.cancel_all chat none (AlertStatus.pending ∷ []) [] refl) Steps.done))

price_moves-Follows_example :
    (a' : PriceAlert) × (find_document (price_kind live) 1 (
        record (alert 1 chat) { status = AlertStatus.fired; fired_at = some 70 }
        ∷ alert 4 other_chat
        ∷ [])
      ≡ some a')
    × Keeps (alert 1 chat) a'
unfolding program
price_moves-Follows_example =
    (price_moves-Follows live table
        (record (alert 1 chat) { status = AlertStatus.fired; fired_at = some 70 }
          ∷ alert 4 other_chat
          ∷ [])
        moves table-IsTable).1
      1 (alert 1 chat) refl

price_calls-IsTable_example :
    IsTable (price_kind live) (record (alert 1 chat) { status = AlertStatus.cancelled } ∷ [])
unfolding program
price_calls-IsTable_example =
    price_calls-IsTable live (record (alert 1 chat) { status = AlertStatus.cancelled } ∷ []) (
      Steps.step (PriceCall.upsert 50 payload (alert 1 chat) refl) (
        Steps.step
          (PriceCall.move (
            PriceMove.cancel_own 1 chat
              (some (record (alert 1 chat) { status = AlertStatus.cancelled })) refl))
          Steps.done))

abbrev indicator_alert : IndicatorAlert
indicator_alert = record {
  id = 2;
  instrument = "EUR_USD";
  granularity = "H1";
  indicator = IndicatorKind.rsi;
  condition = IndicatorAlertCondition.above;
  threshold = some 70;
  status = AlertStatus.pending;
  repeat = true;
  cooloff_minutes = some 30;
  chat_id = chat;
  notes = none;
  created_at = 50;
  fired_at = none;
}

abbrev rsi_cancelled : List IndicatorAlert
rsi_cancelled = record indicator_alert { status = AlertStatus.cancelled } ∷ []

indicator-IsTable : IsTable indicator_kind (indicator_alert ∷ [])
unfolding validate_indicator_alert get_instrument_spec instrument_registry timeframe_deltas
    get_timeframe_delta lookup
indicator-IsTable = (refl, tt, tt)

indicator_moves-Follows_example : Moved (indicator_alert ∷ []) rsi_cancelled
unfolding program
indicator_moves-Follows_example =
    indicator_moves-Follows (indicator_alert ∷ []) rsi_cancelled
      (Steps.step
        (IndicatorMove.fire 2 70
          (some (record indicator_alert { status = AlertStatus.fired; fired_at = some 70 })) refl)
        (Steps.step
          (IndicatorMove.cancel_all chat none (some "H1") (some "Rsi") (AlertStatus.fired ∷ [])
            rsi_cancelled refl)
          Steps.done))
      indicator-IsTable

abbrev reminder : Option ℕ → TimeAlertPayload
reminder id = record {
  id = id;
  chat_id = chat;
  kind = TimeAlertKind.fixed_time;
  status = none;
  schedule = TimeAlertSchedule.daily;
  timezone_name = "Asia/Singapore";
  local_time = some (LocalTime.clock 9 30);
  session_name = none;
  note = none;
  created_at = none;
  next_fire_at = some 90;
  last_fired_at = none;
}

abbrev timed : ℕ → TimeAlert
timed id = time_with_defaults 50 id (reminder none)

time-IsTable : IsTable time_kind (timed 1 ∷ timed 2 ∷ [])
unfolding validate_time_alert validate_kind validate_fire_times
time-IsTable = (refl, (refl, tt), (refl, tt, tt))

create_time_alerts-IsBatch_example :
    IsBatch 50 3 (reminder none ∷ reminder (some 9) ∷ []) (timed 3 ∷ timed 4 ∷ [])
    × (timed 1 ∷ timed 2 ∷ timed 3 ∷ timed 4 ∷ []
        ≡ (timed 1 ∷ timed 2 ∷ []) ++ timed 3 ∷ timed 4 ∷ [])
    × IsTable time_kind (timed 1 ∷ timed 2 ∷ timed 3 ∷ timed 4 ∷ [])
unfolding program
create_time_alerts-IsBatch_example =
    create_time_alerts-IsBatch 50 (reminder none ∷ reminder (some 9) ∷ []) (timed 1 ∷ timed 2 ∷ [])
      (timed 3 ∷ timed 4 ∷ []) (timed 1 ∷ timed 2 ∷ timed 3 ∷ timed 4 ∷ []) time-IsTable refl

trigger_and_cancel_time_alert_example :
    (table' : List TimeAlert) × (fired : TimeAlert) × (mark_time_alert_triggered 1 90
        (some 95)
        (timed 1 ∷ timed 2 ∷ [])
      ≡ ok (some fired, table'))
    × (fired ≡ record (timed 1) { last_fired_at = some 90; next_fire_at = some 95 })
    × (get_time_alert 1 table' ≡ some fired)
unfolding program
trigger_and_cancel_time_alert_example =
    (trigger_and_cancel_time_alert 1 1 90 (some 95) (timed 1) (timed 1 ∷ timed 2 ∷ []) time-IsTable
      refl).0
