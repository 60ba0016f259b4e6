-- ===== src/History/Tests.antt =====
-- A fill that closes two trades and opens one, and a backfill of two months.
use Prim.Native.String.{◌++◌ as str_append}
use oanda_v.Contracts.Trade.{is_symbol_from, is_blank}
use oanda_v.Prelude.{
  ℕ, ◌+◌, String, ok, raise, Error, ◌≡◌, ◌≢◌, refl, some, List, [], ◌∷◌, map, length, arith,
}
use oanda_v.Prelude.Int.{ℤ, pos, negsuc, ◌+ℤ◌, ◌-ℤ◌}
use oanda_v.History.{
  FilledTrade, validate_event, event_checked, OrderFill, TradeHistoryEvent, HistoryRecord, legs_of,
  total_abs, share, allocate_from, allocate_commission, events_of, normalize_order_fill, add_record,
  add_records, net_realized_pl, compute_realized_pnl, split_utc_window,
}
use oanda_v.History.Commission.{sum, allocate_commission-sum}
use oanda_v.History.Legs.{closings, openings}
use oanda_v.History.Profit.{normalize_order_fill-net}
use oanda_v.History.Windows.{Covers, split_utc_window-Covers}

program : Unit {0}
unfolding ◌+ℤ◌ ◌-ℤ◌ legs_of total_abs share allocate_from allocate_commission events_of
    normalize_order_fill validate_event event_checked is_symbol_from is_blank add_record add_records
    split_utc_window sum
program = tt

abbrev no_units : FilledTrade
no_units = record { trade_id = "7"; units = pos 0; realized_pl = pos 0; financing = pos 0 }

abbrev fill : OrderFill
fill = record {
  id = "42";
  account_id = "1";
  instrument = "EUR_USD";
  units = pos 50;
  commission = pos 10;
  trade_opened =
      some (record { trade_id = "42"; units = pos 20; realized_pl = pos 0; financing = pos 0 });
  trades_closed =
      record { trade_id = "7"; units = pos 20; realized_pl = pos 300; financing = negsuc 4 }
      ∷ record { trade_id = "8"; units = pos 20; realized_pl = negsuc 99; financing = pos 0 }
      ∷ [];
  trade_reduced =
      some (record { trade_id = "9"; units = negsuc 4; realized_pl = pos 7; financing = pos 1 });
}

abbrev units : List ℤ
units = pos 20 ∷ pos 20 ∷ negsuc 19 ∷ []

abbrev event : String → String → ℤ → ℕ → String → ℤ → ℤ → ℤ → ℤ → TradeHistoryEvent
event event_type trade_id units abs_units side realized_pl financing commission net = record {
  event_id = str_append "42:" (str_append event_type (str_append ":" trade_id));
  transaction_id = "42";
  event_type = event_type;
  account_id = "1";
  instrument = "EUR_USD";
  trade_id = trade_id;
  units = units;
  abs_units = abs_units;
  side = side;
  realized_pl = realized_pl;
  financing = financing;
  commission = commission;
  net_realized_pl = net;
}

abbrev events : List TradeHistoryEvent
events =
    event "OPEN" "42" (pos 20) 20 "LONG" (pos 0) (pos 0) (pos 3) (negsuc 2)
    ∷ event "CLOSE" "7" (pos 20) 20 "LONG" (pos 300) (negsuc 4) (pos 3) (pos 292)
    ∷ event "CLOSE" "8" (pos 20) 20 "LONG" (negsuc 99) (pos 0) (pos 3) (negsuc 102)
    ∷ event "PARTIAL_CLOSE" "9" (negsuc 4) 5 "SHORT" (pos 7) (pos 1) (pos 1) (pos 7)
    ∷ []

amounts :
    (normalize_order_fill fill ≡ ok events)
    × (normalize_order_fill (record fill { trades_closed = no_units ∷ [] })
        ≡ raise Error.value_error)
    × (allocate_commission (negsuc 4) (pos 1 ∷ pos 1 ∷ []) ≡ negsuc 2 ∷ negsuc 1 ∷ [])
unfolding program
amounts = (refl, refl, refl)

some_units : ◌≢◌ {A = ℕ} 60 0
some_units h = omega arith

allocate_commission-sum_example :
    (length (allocate_commission (pos 10) units) ≡ length units)
    × (sum (allocate_commission (pos 10) units) ≡ pos 10)
unfolding program
allocate_commission-sum_example = allocate_commission-sum (pos 10) units some_units

normalize_order_fill-net_example :
    (length events ≡ openings fill + length (closings fill))
    × (net_realized_pl (compute_realized_pnl (map (λ e. HistoryRecord.trade_event e) events))
        ≡ (sum (map (λ (t : FilledTrade). t.realized_pl) (closings fill))
            +ℤ sum (map (λ (t : FilledTrade). t.financing) (closings fill)))
          -ℤ fill.commission)
unfolding program
normalize_order_fill-net_example = normalize_order_fill-net fill events refl (omega arith)

split_utc_window-Covers_example : Covers 100 170 30 (split_utc_window 70 100 170 30)
split_utc_window-Covers_example = split_utc_window-Covers 70 100 170 30 (omega arith) (omega arith)
