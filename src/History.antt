-- ===== src/History.antt =====
-- The trade history: the amounts that journal/trade_normalizer.py makes of the broker's order fills,
-- and what journal/trade_history_service.py sums up of them. An amount of money is a whole number of
-- quanta of the commission, and units are whole numbers of their smallest step, with the exact quotient
-- where the code's decimals have 28 digits. Texts and times of the events that take no part in these
-- amounts are left out.
pub mod Commission
pub mod Legs
pub mod Profit
pub mod Windows
mod Tests
use Prim.Native.String.{◌++◌ as str_append}
use oanda_v.Prelude.{
  ℕ, zero, suc, ◌+◌, ◌*◌, ◌/◌, ◌≤◌, String, Bool, true, false, ◌||◌, Option, none, some, List, [],
  ◌∷◌, ◌++◌, nat_key, string_key, ◌==◌, ltb, map, if◌then◌else◌, ◌&&◌, not, Result, ok, raise,
  raise_if, Error,
}
use oanda_v.Prelude.Results.{◌>>=◌, ◌>>◌}
use oanda_v.Prelude.Int.{ℤ, pos, negsuc, neg_part, pos_part, sub_ℕ, ◌+ℤ◌, ◌-ℤ◌, ltb_ℤ, abs}
use oanda_v.CandlePolicy.{Time}
use oanda_v.Contracts.Trade.{is_symbol, is_blank}

-- A trade that an order fill opens, closes or reduces.
pub record FilledTrade : Type 0 where
  pub trade_id : String
  pub units : ℤ
  pub realized_pl : ℤ
  pub financing : ℤ

-- An `ORDER_FILL` transaction.
pub record OrderFill : Type 0 where
  pub id : String
  pub account_id : String
  pub instrument : String
  pub units : ℤ
  pub commission : ℤ
  pub trade_opened : Option FilledTrade
  pub trades_closed : List FilledTrade
  pub trade_reduced : Option FilledTrade

pub record Leg : Type 0 where
  pub event_type : String
  pub trade_id : String
  pub units : ℤ
  pub realized_pl : ℤ
  pub financing : ℤ

pub record TradeHistoryEvent : Type 0 where
  pub event_id : String
  pub transaction_id : String
  pub event_type : String
  pub account_id : String
  pub instrument : String
  pub trade_id : String
  pub units : ℤ
  pub abs_units : ℕ
  pub side : String
  pub realized_pl : ℤ
  pub financing : ℤ
  pub commission : ℤ
  pub net_realized_pl : ℤ

abbrev pub opened_leg : FilledTrade → Leg
opened_leg t = record {
  event_type = "OPEN";
  trade_id = t.trade_id;
  units = t.units;
  realized_pl = pos 0;
  financing = pos 0;
}

abbrev pub closed_leg : String → FilledTrade → Leg
closed_leg event_type t = record {
  event_type = event_type;
  trade_id = t.trade_id;
  units = t.units;
  realized_pl = t.realized_pl;
  financing = t.financing;
}

abbrev pub optional : {A B : Type 0} → (A → B) → Option A → List B
optional f none = []
optional f (some a) = f a ∷ []

unfoldable pub legs_of : OrderFill → List Leg
legs_of fill =
    optional opened_leg fill.trade_opened
    ++ map (closed_leg "CLOSE") fill.trades_closed
    ++ optional (closed_leg "PARTIAL_CLOSE") fill.trade_reduced

-- `sum(abs(unit) for unit in units)`
unfoldable pub total_abs : List ℤ → ℕ
total_abs [] = 0
total_abs (u ∷ us) = abs u + total_abs us

-- `quantize(quantum, rounding=ROUND_HALF_UP)` of `total * part / whole`: ties go away from zero.
unfoldable pub share : ℤ → ℕ → ℕ → ℤ
share total part whole =
    let rounded = (2 * (abs total * part) + whole) / (2 * whole) in
    if ltb_ℤ total (pos 0) then sub_ℕ 0 rounded else pos rounded

-- The loop of `_allocate_commission`; the last leg takes what is left.
unfoldable pub allocate_from : ℤ → ℕ → ℤ → List ℤ → List ℤ
allocate_from total whole running_total [] = []
allocate_from total whole running_total (u ∷ []) = (total -ℤ running_total) ∷ []
allocate_from total whole running_total (u ∷ v ∷ us) =
    let allocation = share total (abs u) whole in
    allocation ∷ allocate_from total whole (running_total +ℤ allocation) (v ∷ us)

unfoldable pub allocate_commission : ℤ → List ℤ → List ℤ
allocate_commission total units =
    if total_abs units == 0
    then map (λ _. pos 0) units
    else allocate_from total (total_abs units) (pos 0) units

-- `_resolve_side`
abbrev pub resolve_side : ℤ → ℤ → String
resolve_side units fallback_units =
    let signed_units = if abs units == 0 then fallback_units else units in
    if ltb_ℤ (pos 0) signed_units then "LONG" else "SHORT"

abbrev pub event_of : OrderFill → Leg → ℤ → TradeHistoryEvent
event_of fill leg commission = record {
  event_id =
      str_append fill.id (str_append ":" (str_append leg.event_type (str_append ":" leg.trade_id)));
  transaction_id = fill.id;
  event_type = leg.event_type;
  account_id = fill.account_id;
  instrument = fill.instrument;
  trade_id = leg.trade_id;
  units = leg.units;
  abs_units = abs leg.units;
  side = resolve_side leg.units fill.units;
  realized_pl = leg.realized_pl;
  financing = leg.financing;
  commission = commission;
  net_realized_pl = (leg.realized_pl +ℤ leg.financing) -ℤ commission;
}

-- The contract of `TradeHistoryEvent` (core/models.py).
unfoldable pub validate_event : TradeHistoryEvent → Result (Unit {0})
validate_event e = do
  raise_if (not (is_symbol e.instrument)) Error.value_error
  raise_if (is_blank e.event_id) Error.value_error
  raise_if (is_blank e.transaction_id) Error.value_error
  raise_if (is_blank e.account_id) Error.value_error
  raise_if (is_blank e.trade_id) Error.value_error
  raise_if (abs e.units == 0) Error.value_error
  raise_if (not (e.abs_units == abs e.units)) Error.value_error
  raise_if (e.side == "LONG" && not (ltb_ℤ (pos 0) e.units)) Error.value_error
  raise_if (e.side == "SHORT" && not (ltb_ℤ e.units (pos 0))) Error.value_error

-- One of the events, by the rest of the loop.
unfoldable pub event_checked :
    Result (Unit {0})
    → TradeHistoryEvent
    → Result (List TradeHistoryEvent)
    → Result (List TradeHistoryEvent)
event_checked (raise e) event rest = raise e
event_checked (ok _) event rest = rest >>= λ normalized. ok (event ∷ normalized)

-- The loop over the legs and their allocations.
unfoldable pub events_of : OrderFill → List Leg → List ℤ → Result (List TradeHistoryEvent)
events_of fill (leg ∷ legs) (c ∷ cs) =
    let event = event_of fill leg c in
    event_checked (validate_event event) event (events_of fill legs cs)
events_of fill _ _ = ok []

unfoldable pub normalize_order_fill : OrderFill → Result (List TradeHistoryEvent)
normalize_order_fill fill =
    let legs = legs_of fill in
    events_of fill legs (allocate_commission fill.commission (map (λ (l : Leg). l.units) legs))

pub data HistoryRecord : Type 0 where
  trade_event : TradeHistoryEvent → HistoryRecord
  financing_event : ℤ → HistoryRecord

pub record Totals : Type 0 where
  pub gross_realized_pl : ℤ
  pub financing : ℤ
  pub commission : ℤ

abbrev pub is_close : String → Bool
is_close event_type = event_type == "CLOSE" || event_type == "PARTIAL_CLOSE"

-- The body of the loop of `compute_realized_pnl`.
unfoldable pub add_record : HistoryRecord → Totals → Totals
add_record (HistoryRecord.trade_event e) t = record {
  gross_realized_pl =
      if is_close e.event_type then t.gross_realized_pl +ℤ e.realized_pl else t.gross_realized_pl;
  financing = if is_close e.event_type then t.financing +ℤ e.financing else t.financing;
  commission = t.commission +ℤ e.commission;
}
add_record (HistoryRecord.financing_event f) t = record t { financing = t.financing +ℤ f }

unfoldable pub add_records : List HistoryRecord → Totals → Totals
add_records [] t = t
add_records (r ∷ rs) t = add_records rs (add_record r t)

abbrev pub net_realized_pl : Totals → ℤ
net_realized_pl t = (t.gross_realized_pl +ℤ t.financing) -ℤ t.commission

-- `compute_realized_pnl` of the records of its window.
abbrev pub compute_realized_pnl : List HistoryRecord → Totals
compute_realized_pnl records =
    add_records records
      (record { gross_realized_pl = pos 0; financing = pos 0; commission = pos 0 })

-- `_split_utc_window`, with fuel for the loop.
unfoldable pub split_utc_window : ℕ → Time → Time → ℕ → List (Time × Time)
split_utc_window zero cursor end_utc chunk_size = []
split_utc_window (suc fuel) cursor end_utc chunk_size =
    let next_cursor = if ltb (cursor + chunk_size) end_utc then cursor + chunk_size else end_utc in
    let rest = split_utc_window fuel next_cursor end_utc chunk_size in
    if ltb cursor end_utc then (cursor, next_cursor) ∷ rest else []
