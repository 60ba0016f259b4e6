-- ===== src/Alerts/Price.antt =====
-- Price alerts (core/models.py, data/persistence/trade_store.py). A price is a number of smallest
-- steps, and the current time is an argument.
pub mod Upsert
pub mod Cancelling
pub mod Grid
pub mod Calls
use mathlib.Core.Option
use oanda_v.Prelude.{
  ℕ, zero, suc, ◌+◌, String, Bool, true, false, ◌&&◌, not, Option, none, some, List, [], ◌∷◌, ◌++◌,
  nat_key, string_key, ◌==◌, leb, if◌then◌else◌, Result, ok, raise, raise_if, Error,
}
use oanda_v.Prelude.Int.{ℤ, int_key}
use oanda_v.Prelude.Results.{◌>>=◌, ◌>>◌}
use oanda_v.Prelude.Dict.{or_else}
use oanda_v.Prelude.Sorting.{sort_by}
use oanda_v.CandlePolicy.{Time}
use oanda_v.Instruments.{get_instrument_spec}
use oanda_v.Contracts.Trade.{Price, is_some}
use oanda_v.Alerts.{
  Kind, write_document, get_document, list_documents, rewrite, cancel_documents, update_documents,
  resolve_alert_id, next_numeric_id, put_document,
}
use oanda_v.Alerts.Fields.{
  AlertStatus, is_pending, is_fired, has_status, allows_text, allows_id, allows_status,
  validate_live_symbol,
}

-- `AlertDirection`
pub data AlertDirection : Type 0 where
  above below : AlertDirection

pub record PriceAlert : Type 0 where
  pub id : ℕ
  pub instrument : String
  pub target_price : Price
  pub direction : AlertDirection
  pub status : AlertStatus
  pub armed : Bool
  pub chat_id : ℤ
  pub notes : Option String
  pub created_at : Time
  pub fired_at : Option Time

-- What a caller gives: `setdefault` fills in the rest.
pub record PriceAlertPayload : Type 0 where
  pub id : Option ℕ
  pub instrument : String
  pub target_price : Price
  pub direction : AlertDirection
  pub status : Option AlertStatus
  pub armed : Option Bool
  pub chat_id : ℤ
  pub notes : Option String
  pub created_at : Option Time
  pub fired_at : Option Time

module _ (live : String → Bool) where
  unfoldable pub validate_price_alert : PriceAlert → Result (Unit {0})
  validate_price_alert a = do
    raise_if (a.id == 0) Error.value_error
    raise_if (a.target_price == 0) Error.value_error
    validate_live_symbol live a.instrument
    raise_if (is_fired a.status && not (is_some a.fired_at)) Error.value_error
    raise_if (not (is_fired a.status) && is_some a.fired_at) Error.value_error
    raise_if (not (is_pending a.status) && a.armed) Error.value_error

  abbrev pub price_kind : Kind PriceAlert
  price_kind = record { id_of = λ (a : PriceAlert). a.id; validate = validate_price_alert }

  abbrev pub with_defaults : Time → ℕ → PriceAlertPayload → PriceAlert
  with_defaults now id p = record {
    id = id;
    instrument = p.instrument;
    target_price = p.target_price;
    direction = p.direction;
    status = or_else AlertStatus.pending p.status;
    armed = or_else false p.armed;
    chat_id = p.chat_id;
    notes = p.notes;
    created_at = or_else now p.created_at;
    fired_at = p.fired_at;
  }

  unfoldable pub upsert_price_alert :
      Time → PriceAlertPayload → List PriceAlert → Result (PriceAlert × List PriceAlert)
  upsert_price_alert now p table =
      write_document price_kind (with_defaults now (resolve_alert_id price_kind p.id table) p) table

  abbrev pub get_price_alert : ℕ → List PriceAlert → Option PriceAlert
  get_price_alert alert_id table = get_document price_kind alert_id table

  abbrev pub list_price_alerts :
      Option (List AlertStatus) → Option ℤ → List PriceAlert → List PriceAlert
  list_price_alerts statuses chat_id table =
      list_documents price_kind
        (λ (a : PriceAlert). allows_status statuses a.status && allows_id chat_id a.chat_id) table

  abbrev pub list_pending_price_alerts : List PriceAlert → List PriceAlert
  list_pending_price_alerts table = list_price_alerts (some (AlertStatus.pending ∷ [])) none table

  abbrev pub list_pending_price_alerts_for_chat : ℤ → List PriceAlert → List PriceAlert
  list_pending_price_alerts_for_chat chat_id table =
      list_price_alerts (some (AlertStatus.pending ∷ [])) (some chat_id) table

  unfoldable pub mark_price_alert_fired :
      ℕ → Time → List PriceAlert → Result (Option PriceAlert × List PriceAlert)
  mark_price_alert_fired alert_id fired_at table =
      rewrite price_kind (get_price_alert alert_id table)
        (λ (a : PriceAlert). record a {
          status = AlertStatus.fired;
          armed = false;
          fired_at = some fired_at;
        })
        table

  -- By what `get_price_alert` has found.
  unfoldable pub arm_found :
      Option PriceAlert → List PriceAlert → Result (Option PriceAlert × List PriceAlert)
  arm_found none table = ok (none, table)
  arm_found (some existing) table =
      if is_pending existing.status
      then elim existing.armed [
        | true ↦ ok (some existing, table)
        | false ↦
            rewrite price_kind (some existing) (λ (a : PriceAlert). record a { armed = true }) table
      ]
      else ok (none, table)

  unfoldable pub mark_price_alert_armed :
      ℕ → List PriceAlert → Result (Option PriceAlert × List PriceAlert)
  mark_price_alert_armed alert_id table = arm_found (get_price_alert alert_id table) table

  -- What cancelling does to an alert, in each of the methods that cancel.
  abbrev pub cancelled_price_alert : PriceAlert → PriceAlert
  cancelled_price_alert a = record a {
    status = AlertStatus.cancelled;
    armed = false;
    fired_at = none;
  }

  unfoldable pub cancel_price_alert :
      ℕ → List PriceAlert → Result (Option PriceAlert × List PriceAlert)
  cancel_price_alert alert_id table =
      rewrite price_kind (get_price_alert alert_id table) cancelled_price_alert table

  abbrev pub belongs_to : ℤ → Option PriceAlert → Bool
  belongs_to chat_id none = false
  belongs_to chat_id (some existing) = existing.chat_id == chat_id

  unfoldable pub cancel_price_alert_for_chat :
      ℕ → ℤ → List PriceAlert → Result (Option PriceAlert × List PriceAlert)
  cancel_price_alert_for_chat alert_id chat_id table =
      if belongs_to chat_id (get_price_alert alert_id table)
      then cancel_price_alert alert_id table
      else ok (none, table)

  abbrev pub is_selected : ℤ → Option String → List AlertStatus → PriceAlert → Bool
  is_selected chat_id instrument statuses a =
      a.chat_id == chat_id && has_status statuses a.status && allows_text instrument a.instrument

  unfoldable pub cancel_price_alerts_for_chat :
      ℤ
      → Option String
      → List AlertStatus
      → List PriceAlert
      → Result (List PriceAlert × List PriceAlert)
  cancel_price_alerts_for_chat chat_id instrument statuses table =
      cancel_documents price_kind (is_selected chat_id instrument statuses) cancelled_price_alert
        table

  -- One new alert of a grid.
  abbrev pub grid_alert : Time → ℤ → String → ℕ → PriceAlertPayload → PriceAlert
  grid_alert now chat_id instrument next_id p = record {
    id = next_id;
    instrument = instrument;
    target_price = p.target_price;
    direction = p.direction;
    status = AlertStatus.pending;
    armed = false;
    chat_id = chat_id;
    notes = p.notes;
    created_at = or_else now p.created_at;
    fired_at = none;
  }

  -- One of the new alerts, by the rest of the loop.
  unfoldable pub create_checked :
      Result (Unit {0}) → PriceAlert → Result (List PriceAlert) → Result (List PriceAlert)
  create_checked (raise _) a rest = raise Error.persistence_error
  create_checked (ok _) a rest = rest >>= λ created. ok (a ∷ created)

  -- The loop that creates the new alerts, with ids from `next_id` on.
  unfoldable pub create_grid :
      Time → ℤ → String → ℕ → List PriceAlertPayload → Result (List PriceAlert)
  create_grid now chat_id instrument next_id [] = ok []
  create_grid now chat_id instrument next_id (p ∷ payloads) =
      let a = grid_alert now chat_id instrument next_id p in
      create_checked (validate_price_alert a) a
        (create_grid now chat_id instrument (next_id + 1) payloads)

  -- The pending alerts of the grid are cancelled, and the new ones put at the end, in one write.
  unfoldable pub replace_price_alert_grid :
      Time
      → ℤ
      → String
      → List PriceAlertPayload
      → List PriceAlert
      → Result (List PriceAlert × List PriceAlert)
  replace_price_alert_grid now chat_id instrument payloads table = do
    get_instrument_spec instrument
    let pending_of_grid = is_selected chat_id (some instrument) (AlertStatus.pending ∷ [])
    (_, kept) ← update_documents price_kind pending_of_grid cancelled_price_alert table
    created ← create_grid now chat_id instrument (next_numeric_id price_kind table) payloads
    ok (sort_by (λ (a : PriceAlert). a.id) created, kept ++ created)
