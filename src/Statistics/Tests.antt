-- ===== src/Statistics/Tests.antt =====
-- Five closed trades.
use oanda_v.Prelude.{◌+◌, ◌≡◌, refl, none, some, List, [], ◌∷◌, map, length}
use oanda_v.Prelude.Int.{ℤ, pos, negsuc, ◌+ℤ◌, ◌-ℤ◌}
use oanda_v.Contracts.Trade.{TradeRecord, TradeState, CloseReason}
use oanda_v.Statistics.{
  net_pnl, sum, draw, draw_all, max_drawdown, extreme, average, ratio, rate, build_summary,
}
use oanda_v.Statistics.Balance.{IsLargestFall, build_summary-IsLargestFall}

program : Unit {0}
unfolding ◌+ℤ◌ ◌-ℤ◌ sum draw draw_all max_drawdown extreme average ratio rate build_summary
program = tt

abbrev closed : ℤ → TradeRecord
closed profit = record {
  trade_id = "7";
  instrument = "EUR_USD";
  units = pos 100;
  open_price = 110_000;
  close_price = some 109_000;
  sl_price = none;
  tp_price = none;
  gslo_price = none;
  state = TradeState.closed_state;
  close_reason = some CloseReason.manual;
  pips = none;
  instrument_pnl = some profit;
  instrument_pnl_currency = some "USD";
  account_pnl = some profit;
  account_currency = some "USD";
  opened_at = 50;
  closed_at = some 80;
  notes = none;
}

abbrev trades : List TradeRecord
trades = closed (negsuc 14) ∷ closed (pos 5) ∷ closed (negsuc 7) ∷ closed (pos 0) ∷ []

-- The balance falls from 10 to -8.
drawn : max_drawdown (closed (pos 10) ∷ trades) ≡ some (pos 18)
unfolding program
drawn = refl

build_summary-IsLargestFall_example :
    (let s = build_summary (closed (pos 10) ∷ trades) in
      (s.win_count + s.loss_count + s.breakeven_count ≡ length (closed (pos 10) ∷ trades))
      × ((m : ℤ) × (s.max_drawdown ≡ some m)
          × IsLargestFall (map net_pnl (closed (pos 10) ∷ trades)) m))
build_summary-IsLargestFall_example = build_summary-IsLargestFall (closed (pos 10)) trades
