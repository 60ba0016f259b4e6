-- ===== src/Poller.antt =====
-- `TradePollerTask` (background/poller_task.py): the differences between the broker's open trades and
-- the journal's. The broker's answers are parameters: a text of a payload is read as the value that it
-- stands for. The handler that hears of the instruments of the open trades is left out.
pub mod Loops
pub mod Steps
pub mod Closes
pub mod Polls
pub mod Reconciles
mod Tests
use oanda_v.Prelude.{
  ℕ, String, Bool, true, false, ◌&&◌, not, Option, none, some, List, [], ◌∷◌, ◌++◌, nat_key,
  string_key, ◌==◌, is_empty, if◌then◌else◌, Result, ok, raise, raise_if, Error,
}
use Prim.Native.String.{◌++◌ as str_append}
use oanda_v.Prelude.Results.{◌>>=◌, ◌>>◌, or_raise}
use oanda_v.Prelude.Dict.{Dict, lookup, insert, or_else}
use oanda_v.Prelude.Int.{ℤ, abs}
use oanda_v.CandlePolicy.{Time}
use oanda_v.Contracts.Trade.{TradeRecord, CloseReason, Price, is_some, is_blank}
use oanda_v.Journal.{
  Trades, TradeOpenedEvent, TradeModifiedEvent, TradeClosedEvent, list_open_trades,
  handle_trade_opened, handle_trade_modified, handle_trade_closed,
}

-- An open trade as the account client gives it.
pub record OpenTrade : Type 0 where
  pub id : String
  pub instrument : Option String
  pub current_units : Option ℤ
  pub price : Option Price
  pub stop_loss_price : Option Price
  pub take_profit_price : Option Price
  pub gslo_price : Option Price
  pub open_time : Option Time

-- The details of a trade; a price that is no number counts as missing.
pub record TradeDetail : Type 0 where
  pub average_close_price : Option Price
  pub close_price : Option Price
  pub price : Option Price
  pub close_reason : Option String
  pub realized_pl : Option ℤ
  pub close_time : Option Time

pub data Event : Type 0 where
  opened : TradeOpenedEvent → Event
  modified : TradeModifiedEvent → Event
  closed : TradeClosedEvent → Event

pub data OpenTradesAnswer : Type 0 where
  answered : List OpenTrade → OpenTradesAnswer
  failed : Error → String → OpenTradesAnswer

pub record Poller : Type 0 where
  pub trades : Trades
  pub started_at : Option Time
  pub last_heartbeat_at : Option Time
  pub last_error_at : Option Time
  pub last_error : Option String

-- `{str(item["id"]): item for item in current}`
unfoldable pub by_id {ℓ} : {A : Type ℓ} → (A → String) → List A → Dict String A → Dict String A
by_id key [] d = d
by_id key (x ∷ xs) d = by_id key xs (insert (key x) x d)

-- A loop whose steps may write trades and emit events. A step that raises ends the loop, and what the
-- steps before it have written stays.
abbrev pub prepend : List Event → Result (List Event) × Trades → Result (List Event) × Trades
prepend events (ok more, trades) = (ok (events ++ more), trades)
prepend events (raise e, trades) = (raise e, trades)

abbrev pub continue :
    Result (List Event × Trades)
    → Trades
    → (Trades → Result (List Event) × Trades)
    → Result (List Event) × Trades
continue (raise e) trades rest = (raise e, trades)
continue (ok (events, changed)) trades rest = prepend events (rest changed)

-- One loop after another.
abbrev pub and_then :
    Result (List Event) × Trades
    → (Trades → Result (List Event) × Trades)
    → Result (List Event) × Trades
and_then (raise e, trades) rest = (raise e, trades)
and_then (ok events, trades) rest = prepend events (rest trades)

unfoldable pub for_each :
    {A : Type 0}
    → (A → Trades → Result (List Event × Trades))
    → List A
    → Trades
    → Result (List Event) × Trades
for_each step [] trades = (ok [], trades)
for_each step (x ∷ xs) trades = continue (step x trades) trades (for_each step xs)

-- `!=` of optional prices, negated.
abbrev pub same_price : Option Price → Option Price → Bool
same_price none none = true
same_price (some p) (some q) = p == q
same_price _ _ = false

abbrev pub first_price : List (Option Price) → Price → Price
first_price [] fallback = fallback
first_price (none ∷ prices) fallback = first_price prices fallback
first_price (some p ∷ prices) fallback = p

-- `_resolve_close_price`
abbrev pub resolve_close_price : TradeDetail → Price → Price
resolve_close_price d fallback =
    first_price (d.average_close_price ∷ d.close_price ∷ d.price ∷ []) fallback

unfoldable pub join_errors : List String → String
join_errors [] = ""
join_errors (e ∷ []) = e
join_errors (e ∷ f ∷ es) = str_append e (str_append "; " (join_errors (f ∷ es)))

-- What a poll asks of the rest of the program: `validate_live_instrument`, `get_pip_size`, the
-- setting `account_currency`, and the close reason that is inferred from the stop-loss and
-- take-profit prices, the close price, the raw reason and the transactions of the trade.
pub record Services : Type 0 where
  pub resolve : String → Result String
  pub pip_size : String → Result ℕ
  pub default_currency : String
  pub infer_close_reason :
      String → Option Price → Option Price → Price → Option String → CloseReason

abbrev pub current_of : List OpenTrade → Dict String OpenTrade
current_of current = by_id (λ (t : OpenTrade). t.id) current []

abbrev pub existing_of : Trades → Dict String TradeRecord
existing_of trades = by_id (λ (t : TradeRecord). t.trade_id) (list_open_trades trades) []

module _ (s : Services) where
  unfoldable pub opened_event : String → Time → String → OpenTrade → Result TradeOpenedEvent
  opened_event currency now trade_id payload = do
    instrument ← or_raise Error.key_error payload.instrument
    units ← or_raise Error.key_error payload.current_units
    price ← or_raise Error.key_error payload.price
    resolved ← s.resolve instrument
    raise_if (abs units == 0) Error.value_error
    raise_if (is_blank currency) Error.value_error
    ok (record {
      trade_id = trade_id;
      instrument = resolved;
      units = units;
      open_price = price;
      sl = payload.stop_loss_price;
      tp = payload.take_profit_price;
      gslo = payload.gslo_price;
      opened_at = or_else now payload.open_time;
      account_currency = some currency;
    })

  -- The body of the first loop, by what `existing_open` has of the trade.
  unfoldable pub sync_found :
      Option TradeRecord
      → String
      → Time
      → String
      → OpenTrade
      → Trades
      → Result (List Event × Trades)
  sync_found none currency now trade_id payload trades = do
    event ← opened_event currency now trade_id payload
    (_, changed) ← handle_trade_opened event trades
    ok (Event.opened event ∷ [], changed)
  sync_found (some existing) currency now trade_id payload trades =
      if same_price existing.sl_price payload.stop_loss_price
        && same_price existing.tp_price payload.take_profit_price
      then ok ([], trades)
      else (do
        let event : TradeModifiedEvent = record {
          trade_id = trade_id;
          new_sl = payload.stop_loss_price;
          new_tp = payload.take_profit_price;
          modified_at = now;
        }
        (_, changed) ← handle_trade_modified event trades
        ok (Event.modified event ∷ [], changed))

  unfoldable pub sync_payload :
      String
      → Time
      → Dict String TradeRecord
      → String × OpenTrade
      → Trades
      → Result (List Event × Trades)
  sync_payload currency now existing_open x trades =
      sync_found (lookup x.0 existing_open) currency now x.0 x.1 trades

  unfoldable pub closed_event : String → Time → TradeRecord → TradeDetail → Result TradeClosedEvent
  closed_event currency now existing detail = do
    let close_price = resolve_close_price detail existing.open_price
    resolved ← s.resolve existing.instrument
    raise_if (abs existing.units == 0) Error.value_error
    raise_if (is_blank currency) Error.value_error
    ok (record {
      trade_id = existing.trade_id;
      instrument = resolved;
      units = existing.units;
      open_price = existing.open_price;
      close_price = close_price;
      realized_pnl = detail.realized_pl;
      close_reason =
          s.infer_close_reason existing.trade_id existing.sl_price existing.tp_price close_price
            detail.close_reason;
      closed_at = or_else now detail.close_time;
      account_currency = some currency;
    })

  -- The body of the second loop, by whether `current_by_id` has the trade and by its detail.
  unfoldable pub close_known :
      Option OpenTrade
      → Option TradeDetail
      → String
      → Time
      → TradeRecord
      → Trades
      → Result (List Event × Trades)
  close_known (some _) detail currency now existing trades = ok ([], trades)
  close_known none none currency now existing trades = ok ([], trades)
  close_known none (some detail) currency now existing trades = do
    event ← closed_event currency now existing detail
    (_, changed) ← handle_trade_closed s.pip_size s.default_currency event trades
    ok (Event.closed event ∷ [], changed)

  -- `trade_detail` is `_safe_trade_detail`, which turns errors into a missing detail.
  unfoldable pub close_missing :
      String
      → Time
      → (String → Option TradeDetail)
      → Dict String OpenTrade
      → String × TradeRecord
      → Trades
      → Result (List Event × Trades)
  close_missing currency now trade_detail current_by_id x trades =
      close_known (lookup x.0 current_by_id) (trade_detail x.0) currency now x.1 trades

  -- The messages of `cycle_errors`.
  unfoldable pub cycle_errors :
      (String → Option TradeDetail) → Dict String OpenTrade → Dict String TradeRecord → List String
  cycle_errors trade_detail current_by_id [] = []
  cycle_errors trade_detail current_by_id ((trade_id, _) ∷ rest) =
      let more = cycle_errors trade_detail current_by_id rest in
      if is_some (lookup trade_id current_by_id)
      then more
      else if is_some (trade_detail trade_id)
      then more
      else str_append "trade_detail_unavailable:" trade_id ∷ more

  -- Both loops.
  unfoldable pub sync_trades :
      String
      → Time
      → (String → Option TradeDetail)
      → List OpenTrade
      → Trades
      → Result (List Event) × Trades
  sync_trades currency now trade_detail current trades =
      let current_by_id = current_of current in
      let existing_open = existing_of trades in
      and_then (for_each (sync_payload currency now existing_open) current_by_id trades)
        (for_each (close_missing currency now trade_detail current_by_id) existing_open)

  -- The end of `_poll_once_sync`, which an error in a loop skips.
  abbrev pub finish_poll :
      Result (List Event) × Trades → List String → Time → Poller → Result (List Event) × Poller
  finish_poll (raise e, trades) errors later begun = (raise e, record begun { trades = trades })
  finish_poll (ok events, trades) errors later begun = (
    ok events,
    record begun {
      trades = trades;
      last_heartbeat_at = some later;
      last_error_at = if is_empty errors then none else some later;
      last_error = if is_empty errors then none else some (join_errors errors);
    },
  )

  -- `_poll_once_sync`. `safe_currency` is `_safe_account_currency`, `later` the time at the end.
  unfoldable pub poll_once :
      OpenTradesAnswer
      → (String → Option TradeDetail)
      → String
      → Time
      → Time
      → Poller
      → Result (List Event) × Poller
  poll_once answer trade_detail safe_currency now later p =
      let begun : Poller = record p { started_at = some (or_else now p.started_at) } in
      elim answer [
        | failed e message ↦
            (raise e, record begun { last_error_at = some now; last_error = some message })
        | answered current ↦
            let existing_open = existing_of p.trades in
            let idle = is_empty (current_of current) && is_empty existing_open in
            let currency = if idle then s.default_currency else safe_currency in
            finish_poll (sync_trades currency now trade_detail current p.trades)
              (cycle_errors trade_detail (current_of current) existing_open) later begun
      ]

-- `status`
unfoldable pub poller_state : Poller → String
poller_state p =
    if is_some p.started_at
    then if is_some p.last_error then "DEGRADED" else "RUNNING"
    else "STOPPED"
