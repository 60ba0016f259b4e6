-- ===== src/Journal.antt =====
-- The journal of trades: the events of core/events.py, the trades table of
-- data/persistence/trade_store.py behind journal/trade_repository.py, and `JournalService`
-- (journal/journal_service.py). The table is a dictionary by trade id, and its writes succeed. The
-- pip size of an instrument, which may come from the broker's catalog, is a parameter. The log and
-- the hook that hears of each record are left out.
pub mod Records
pub mod Closing
pub mod Invariant
mod Tests
use mathlib.Core.Option
use oanda_v.Prelude.{
  ℕ, String, Bool, true, false, Option, none, some, List, [], ◌∷◌, nat_key, string_key, ◌==◌, ltb,
  leb, if◌then◌else◌, filter, map, Result, ok, raise, Error,
}
use oanda_v.Prelude.Results.{◌>>=◌, ◌>>◌}
use oanda_v.Prelude.Dict.{Dict, lookup, insert, or_else}
use oanda_v.Prelude.Int.{ℤ, pos, ◌-ℤ◌, ltb_ℤ}
use oanda_v.CandlePolicy.{Time}
use oanda_v.Contracts.Trade.{TradeRecord, TradeState, CloseReason, Price, validate_trade}

-- `TradeOpenedEvent`, `TradeModifiedEvent` and `TradeClosedEvent`
pub record TradeOpenedEvent : Type 0 where
  pub trade_id : String
  pub instrument : String
  pub units : ℤ
  pub open_price : Price
  pub sl : Option Price
  pub tp : Option Price
  pub gslo : Option Price
  pub opened_at : Time
  pub account_currency : Option String

pub record TradeModifiedEvent : Type 0 where
  pub trade_id : String
  pub new_sl : Option Price
  pub new_tp : Option Price
  pub modified_at : Time

pub record TradeClosedEvent : Type 0 where
  pub trade_id : String
  pub instrument : String
  pub units : ℤ
  pub open_price : Price
  pub close_price : Price
  pub realized_pnl : Option ℤ
  pub close_reason : CloseReason
  pub closed_at : Time
  pub account_currency : Option String

abbrev pub Trades : Type 0
Trades = Dict String TradeRecord

-- `upsert_trade` of a record, which Pydantic has validated.
unfoldable pub upsert_trade : TradeRecord → Trades → Trades
upsert_trade trade trades = insert trade.trade_id trade trades

abbrev pub get_trade : String → Trades → Option TradeRecord
get_trade trade_id trades = lookup trade_id trades

abbrev pub is_open : TradeRecord → Bool
is_open t = elim t.state [ TradeState.open_state ↦ true | TradeState.closed_state ↦ false ]

abbrev pub closed_or_start : TradeRecord → Time
closed_or_start t = or_else 0 t.closed_at

-- `sort(key=..., reverse=True)`, which keeps the order of equal keys.
unfoldable pub insert_newest :
    (TradeRecord → Time) → TradeRecord → List TradeRecord → List TradeRecord
insert_newest key t [] = t ∷ []
insert_newest key t (u ∷ us) =
    let rest = insert_newest key t us in if leb (key u) (key t) then t ∷ u ∷ us else u ∷ rest

unfoldable pub sort_newest : (TradeRecord → Time) → List TradeRecord → List TradeRecord
sort_newest key [] = []
sort_newest key (t ∷ ts) = insert_newest key t (sort_newest key ts)

abbrev pub records : Trades → List TradeRecord
records trades = map (λ (x : String × TradeRecord). x.1) trades

abbrev pub list_open_trades : Trades → List TradeRecord
list_open_trades trades =
    sort_newest (λ (t : TradeRecord). t.opened_at) (filter is_open (records trades))

abbrev pub list_closed_trades : Trades → List TradeRecord
list_closed_trades trades =
    sort_newest closed_or_start (filter (λ t. if is_open t then false else true) (records trades))

-- The keyword arguments of `close_trade`.
pub record CloseFields : Type 0 where
  pub close_price : Price
  pub close_reason : CloseReason
  pub pips : ℤ × ℕ
  pub instrument_pnl : ℤ
  pub instrument_pnl_currency : String
  pub account_pnl : ℤ
  pub account_currency : String
  pub closed_at : Time

abbrev pub with_close_fields : CloseFields → TradeRecord → TradeRecord
with_close_fields f t = record t {
  close_price = some f.close_price;
  state = TradeState.closed_state;
  close_reason = some f.close_reason;
  pips = some f.pips;
  instrument_pnl = some f.instrument_pnl;
  instrument_pnl_currency = some f.instrument_pnl_currency;
  account_pnl = some f.account_pnl;
  account_currency = some f.account_currency;
  closed_at = some f.closed_at;
}

-- Validates a record and writes it.
unfoldable pub store_trade : TradeRecord → Trades → Result (TradeRecord × Trades)
store_trade t trades = do validate_trade t; ok (t, upsert_trade t trades)

-- The record is written if there is one.
unfoldable pub store_found : Option TradeRecord → Trades → Result (Option TradeRecord × Trades)
store_found none trades = ok (none, trades)
store_found (some t) trades = do (stored, changed) ← store_trade t trades; ok (some stored, changed)

-- `TradeStore.close_trade`
unfoldable pub close_trade : String → CloseFields → Trades → Result (Option TradeRecord × Trades)
close_trade trade_id f trades =
    store_found (Option.map (with_close_fields f) (get_trade trade_id trades)) trades

-- `TradeStore.set_trade_notes`
unfoldable pub set_trade_notes :
    String → Option String → Trades → Result (Option TradeRecord × Trades)
set_trade_notes trade_id notes trades =
    store_found
      (Option.map (λ (t : TradeRecord). record t { notes = notes }) (get_trade trade_id trades))
      trades

abbrev pub notes_of : Option TradeRecord → Option String
notes_of none = none
notes_of (some t) = t.notes

abbrev pub opened_record : TradeOpenedEvent → Trades → TradeRecord
opened_record event trades = record {
  trade_id = event.trade_id;
  instrument = event.instrument;
  units = event.units;
  open_price = event.open_price;
  close_price = none;
  sl_price = event.sl;
  tp_price = event.tp;
  gslo_price = event.gslo;
  state = TradeState.open_state;
  close_reason = none;
  pips = none;
  instrument_pnl = none;
  instrument_pnl_currency = none;
  account_pnl = none;
  account_currency = none;
  opened_at = event.opened_at;
  closed_at = none;
  notes = notes_of (get_trade event.trade_id trades);
}

unfoldable pub handle_trade_opened : TradeOpenedEvent → Trades → Result (TradeRecord × Trades)
handle_trade_opened event trades = store_trade (opened_record event trades) trades

unfoldable pub handle_trade_modified :
    TradeModifiedEvent → Trades → Result (Option TradeRecord × Trades)
handle_trade_modified event trades =
    store_found
      (Option.map
        (λ (t : TradeRecord). record t { sl_price = event.new_sl; tp_price = event.new_tp })
        (get_trade event.trade_id trades))
      trades

-- `pip_size` is `get_pip_size` (core/instrument_registry.py); `account_currency` is the setting.
module _ (pip_size : String → Result ℕ) (account_currency : String) where
  -- `_compute_pips`, with the quotient as a pair.
  unfoldable pub compute_pips : TradeRecord → TradeClosedEvent → Result (ℤ × ℕ)
  compute_pips existing event = do
    size ← pip_size existing.instrument
    let move = pos event.close_price -ℤ pos existing.open_price
    let signed_move = if ltb_ℤ (pos 0) existing.units then move else pos 0 -ℤ move
    ok (signed_move, size)

  unfoldable pub close_found :
      Option TradeRecord → TradeClosedEvent → Trades → Result (Option TradeRecord × Trades)
  close_found none event trades = ok (none, trades)
  close_found (some existing) event trades = do
    let currency = or_else account_currency event.account_currency
    pips ← compute_pips existing event
    let f : CloseFields = record {
      close_price = event.close_price;
      close_reason = event.close_reason;
      pips = pips;
      instrument_pnl = or_else (pos 0) event.realized_pnl;
      instrument_pnl_currency = currency;
      account_pnl = or_else (pos 0) event.realized_pnl;
      account_currency = currency;
      closed_at = event.closed_at;
    }
    close_trade event.trade_id f trades

  unfoldable pub handle_trade_closed :
      TradeClosedEvent → Trades → Result (Option TradeRecord × Trades)
  handle_trade_closed event trades = close_found (get_trade event.trade_id trades) event trades
