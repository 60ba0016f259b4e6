-- ===== src/Journal/Tests.antt =====
-- The life of one trade in the journal.
use oanda_v.Prelude.{
  ℕ, ◌≡◌, refl, String, none, some, List, [], ◌∷◌, string_key, ◌==◌, if◌then◌else◌, Result, ok,
  raise, Error, arith,
}
use oanda_v.Prelude.Dict.{lookup, insert}
use oanda_v.Prelude.Int.{pos, negsuc, ◌-ℤ◌}
use oanda_v.Contracts.Trade.{
  TradeRecord, TradeState, CloseReason, is_currency_from, is_symbol_from, is_blank,
  validate_opening, validate_trade,
}
use oanda_v.Journal.{
  Trades, TradeOpenedEvent, TradeModifiedEvent, TradeClosedEvent, upsert_trade, store_trade,
  store_found, close_trade, set_trade_notes, handle_trade_opened, handle_trade_modified,
  handle_trade_closed, close_found, compute_pips, get_trade, insert_newest, sort_newest,
  list_open_trades, list_closed_trades,
}
use oanda_v.Journal.Records.{IsValid}
use oanda_v.Journal.Invariant.{Call, run_call, run_calls, run_calls-IsValid}
use oanda_v.Journal.Closing.{closed_trade, handle_trade_closed-closes}

program : Unit {0}
unfolding lookup insert ◌-ℤ◌ is_currency_from is_symbol_from is_blank validate_opening
    validate_trade upsert_trade store_trade store_found close_trade set_trade_notes
    handle_trade_opened handle_trade_modified handle_trade_closed close_found compute_pips
    insert_newest sort_newest run_call run_calls
program = tt

abbrev opening : TradeOpenedEvent
opening = record {
  trade_id = "7";
  instrument = "EUR_USD";
  units = negsuc 99;
  open_price = 110_000;
  sl = some 111_000;
  tp = none;
  gslo = none;
  opened_at = 50;
  account_currency = some "EUR";
}

abbrev moving : TradeModifiedEvent
moving = record { trade_id = "7"; new_sl = some 110_500; new_tp = some 109_000; modified_at = 60 }

abbrev ending : TradeClosedEvent
ending = record {
  trade_id = "7";
  instrument = "EUR_USD";
  units = negsuc 99;
  open_price = 110_000;
  close_price = 109_000;
  realized_pnl = some (pos 9);
  close_reason = CloseReason.tp_hit;
  closed_at = 80;
  account_currency = none;
}

abbrev pip_size : String → Result ℕ
pip_size instrument = if instrument == "EUR_USD" then ok 10 else raise Error.key_error

abbrev calls : List Call
calls = Call.opened opening ∷ Call.noted "7" (some "breakout") ∷ Call.modified moving ∷ []

abbrev before : Trades
before = run_calls pip_size "USD" calls []

abbrev trade : TradeRecord
trade = record {
  trade_id = "7";
  instrument = "EUR_USD";
  units = negsuc 99;
  open_price = 110_000;
  close_price = none;
  sl_price = some 110_500;
  tp_price = some 109_000;
  gslo_price = none;
  state = TradeState.open_state;
  close_reason = none;
  pips = none;
  instrument_pnl = none;
  instrument_pnl_currency = none;
  account_pnl = none;
  account_currency = none;
  opened_at = 50;
  closed_at = none;
  notes = some "breakout";
}

before-eq : before ≡ ("7", trade) ∷ []
unfolding program
before-eq = refl

abbrev short_win : TradeRecord
short_win = record {
  trade_id = "7";
  instrument = "EUR_USD";
  units = negsuc 99;
  open_price = 110_000;
  close_price = some 109_000;
  sl_price = some 110_500;
  tp_price = some 109_000;
  gslo_price = none;
  state = TradeState.closed_state;
  close_reason = some CloseReason.tp_hit;
  pips = some (pos 1_000, 10);
  instrument_pnl = some (pos 9);
  instrument_pnl_currency = some "USD";
  account_pnl = some (pos 9);
  account_currency = some "USD";
  opened_at = 50;
  closed_at = some 80;
  notes = some "breakout";
}

life :
    (run_calls pip_size "USD" (Call.closed ending ∷ []) before ≡ ("7", short_win) ∷ [])
    × (short_win.pips ≡ some (pos 1_000, 10))
    × (list_open_trades before ≡ trade ∷ [])
    × (list_closed_trades before ≡ [])
    × (handle_trade_closed pip_size "US" ending before ≡ raise Error.value_error)
unfolding program
life = (refl, refl, refl, refl, refl)

run_calls-IsValid_example : IsValid (run_calls pip_size "USD" (Call.closed ending ∷ calls) [])
run_calls-IsValid_example = run_calls-IsValid pip_size "USD" (Call.closed ending ∷ calls) [] tt

before-IsValid : IsValid before
before-IsValid = run_calls-IsValid pip_size "USD" calls [] tt

handle_trade_closed-closes_example :
    (changed : Trades) × (handle_trade_closed pip_size "USD" ending before
      ≡ ok (some (closed_trade pip_size "USD" trade 10 ending), changed))
    × (validate_trade (closed_trade pip_size "USD" trade 10 ending) ≡ ok tt)
    × (get_trade "8" changed ≡ (
        if ending.trade_id == "8"
        then some (closed_trade pip_size "USD" trade 10 ending)
        else get_trade "8" before))
unfolding program
handle_trade_closed-closes_example =
    handle_trade_closed-closes pip_size "USD" ending trade 10 before "8" before-IsValid refl refl
      (omega arith) refl (omega arith)
