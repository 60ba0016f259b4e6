-- ===== src/Poller/Tests.antt =====
-- A poll that opens, modifies and closes a trade.
use oanda_v.Prelude.{
  ℕ, ◌≡◌, refl, String, Option, none, some, List, [], ◌∷◌, string_key, ◌==◌, if◌then◌else◌, Result,
  ok, raise, Error,
}
use oanda_v.Prelude.Dict.{lookup, insert}
use oanda_v.Prelude.Int.{pos, ◌-ℤ◌}
use oanda_v.Contracts.Trade.{
  CloseReason, is_currency_from, is_symbol_from, is_blank, validate_opening, validate_trade,
}
use oanda_v.Journal.{
  Trades, TradeOpenedEvent, upsert_trade, store_trade, store_found, close_trade,
  handle_trade_opened, handle_trade_modified, handle_trade_closed, close_found, compute_pips,
  insert_newest, sort_newest,
}
use oanda_v.Journal.Invariant.{Call, run_call, run_calls}
use oanda_v.Poller.{
  OpenTrade, TradeDetail, Event, OpenTradesAnswer, Poller, Services, by_id, for_each, join_errors,
  opened_event, sync_found, sync_payload, closed_event, close_known, close_missing, cycle_errors,
  sync_trades, poll_once, poller_state,
}

program : Unit {0}
unfolding lookup insert ◌-ℤ◌ is_currency_from is_symbol_from is_blank validate_opening
    validate_trade upsert_trade store_trade store_found close_trade handle_trade_opened
    handle_trade_modified handle_trade_closed close_found compute_pips insert_newest sort_newest
    run_call run_calls by_id for_each join_errors opened_event sync_found sync_payload closed_event
    close_known close_missing cycle_errors sync_trades poll_once poller_state
program = tt

abbrev services : Services
services = record {
  resolve = λ instrument. ok instrument;
  pip_size = λ _. ok 10;
  default_currency = "USD";
  infer_close_reason = λ _ _ _ _ _. CloseReason.manual;
}

abbrev opening : String → TradeOpenedEvent
opening id = record {
  trade_id = id;
  instrument = "EUR_USD";
  units = pos 100;
  open_price = 110_000;
  sl = none;
  tp = some 112_000;
  gslo = none;
  opened_at = 50;
  account_currency = some "EUR";
}

abbrev calls : List Call
calls = Call.opened (opening "7") ∷ Call.opened (opening "8") ∷ Call.opened (opening "9") ∷ []

abbrev before : Trades
before = run_calls services.pip_size "USD" calls []

abbrev payload : String → Option ℕ → OpenTrade
payload id tp = record {
  id = id;
  instrument = some "EUR_USD";
  current_units = some (pos 100);
  price = some 110_000;
  stop_loss_price = none;
  take_profit_price = tp;
  gslo_price = none;
  open_time = none;
}

abbrev current : List OpenTrade
current = payload "7" (some 113_000) ∷ payload "6" none ∷ []

abbrev detail : TradeDetail
detail = record {
  average_close_price = some 111_000;
  close_price = none;
  price = none;
  close_reason = none;
  realized_pl = some (pos 10);
  close_time = none;
}

abbrev trade_detail : String → Option TradeDetail
trade_detail id = if id == "8" then some detail else none

abbrev poller : Poller
poller = record {
  trades = before;
  started_at = none;
  last_heartbeat_at = none;
  last_error_at = none;
  last_error = none;
}

abbrev kinds : List Event → List (String × String)
kinds [] = []
kinds (Event.opened e ∷ es) = ("opened", e.trade_id) ∷ kinds es
kinds (Event.modified e ∷ es) = ("modified", e.trade_id) ∷ kinds es
kinds (Event.closed e ∷ es) = ("closed", e.trade_id) ∷ kinds es

abbrev summary :
    Result (List Event) × Poller → Result (List (String × String)) × (String × Option String)
summary (raise e, p) = (raise e, (poller_state p, p.last_error))
summary (ok es, p) = (ok (kinds es), (poller_state p, p.last_error))

polls :
    (summary
        (poll_once services (OpenTradesAnswer.answered current) trade_detail "EUR" 90 95 poller)
      ≡ (
        ok (("modified", "7") ∷ ("opened", "6") ∷ ("closed", "8") ∷ []),
        ("DEGRADED", some "trade_detail_unavailable:9"),
      ))
    × (summary (
          poll_once services
            (OpenTradesAnswer.failed Error.fetch_error "timeout")
            trade_detail
            "EUR"
            90
            95
            poller)
        ≡ (raise Error.fetch_error, ("DEGRADED", some "timeout")))
    × (poller_state poller ≡ "STOPPED")
unfolding program
polls = (refl, refl, refl)
