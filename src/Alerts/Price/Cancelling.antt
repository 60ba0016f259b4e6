-- ===== src/Alerts/Price/Cancelling.antt =====
-- Cancelling price alerts (data/persistence/trade_store.py).
use oanda_v.Prelude.{
  ◌≡◌, filter, refl, String, Bool, Option, List, map, nat_key, if◌then◌else◌, ok, arith,
}
use oanda_v.Prelude.Int.{ℤ, int_key}
use oanda_v.Prelude.Sorting.{sort_by}
use oanda_v.Alerts.{cancel_documents}
use oanda_v.Alerts.Fields.{AlertStatus}
use oanda_v.Alerts.Tables.{IsTable, contracts, update_documents-valid}
use oanda_v.Alerts.Price.{
  PriceAlert, validate_price_alert, price_kind, cancel_price_alerts_for_chat, cancelled_price_alert,
  is_selected,
}

module _ (live : String → Bool) where
  -- A stored alert keeps its contract when it is cancelled.
  pub cancelled-IsContract :
      (a : PriceAlert)
      → validate_price_alert live a ≡ ok tt
      → validate_price_alert live (cancelled_price_alert live a) ≡ ok tt
  unfolding validate_price_alert
  cancelled-IsContract a h = ground arith

  -- Cancelling for a chat never fails on a table of valid alerts: it cancels the alerts of the
  -- chat (and of the instrument, if one is given) that have one of the statuses, returns them by
  -- id, and leaves the others as they are.
  pub cancel_price_alerts_for_chat-valid :
      (chat_id : ℤ) (instrument : Option String) (statuses : List AlertStatus)
      (table : List PriceAlert)
      → IsTable (price_kind live) table
      → cancel_price_alerts_for_chat live chat_id instrument statuses table
        ≡ ok (
          sort_by
              (λ (a : PriceAlert). a.id)
              (map
                (cancelled_price_alert live)
                (filter (is_selected live chat_id instrument statuses) table)),
          map
              (λ (a : PriceAlert).
                if is_selected live chat_id instrument statuses a
                then cancelled_price_alert live a
                else a)
              table,
        )
  unfolding cancel_price_alerts_for_chat cancel_documents
  cancel_price_alerts_for_chat-valid chat_id instrument statuses table h =
      rw
        (update_documents-valid (price_kind live) (is_selected live chat_id instrument statuses)
          (cancelled_price_alert live) (λ a. refl) cancelled-IsContract table
          (contracts (price_kind live) table h))
        refl
