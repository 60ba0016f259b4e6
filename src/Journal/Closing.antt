-- ===== src/Journal/Closing.antt =====
-- What opening, modifying and closing a trade leave in the journal (journal/journal_service.py).
use oanda_v.Prelude.{
  ℕ, ◌<◌, ◌≤◌, ◌≡◌, refl, String, true, some, string_key, ◌==◌, if◌then◌else◌, Result, ok, arith,
  subst, le→ltb_false,
}
use oanda_v.Prelude.Dict.{lookup, insert, or_else, lookup-insert}
use oanda_v.Prelude.Int.{pos, ◌-ℤ◌, ltb_ℤ}
use oanda_v.Contracts.Trade.{
  TradeRecord, TradeState, is_currency_from, validate_opening, validate_trade,
  validate_trade-opening,
}
use oanda_v.Journal.{
  Trades, TradeClosedEvent, CloseFields, with_close_fields, get_trade, store_found, close_trade,
  close_found, compute_pips, handle_trade_closed,
}
use oanda_v.Journal.Records.{IsValid, lookup-IsValid, store_trade-valid}

pub validate_trade-closing :
    (t : TradeRecord) (f : CloseFields)
    → validate_trade t ≡ ok tt
    → 0 < f.close_price
    → is_currency_from 3 f.instrument_pnl_currency ≡ true
    → is_currency_from 3 f.account_currency ≡ true
    → t.opened_at ≤ f.closed_at
    → validate_trade (with_close_fields f t) ≡ ok tt
unfolding validate_trade validate_opening
validate_trade-closing t f valid positive c c' later =
    let before = le→ltb_false f.closed_at t.opened_at later in
    rw (validate_trade-opening t valid, c, c', before) (ground arith)

pub store_found-valid :
    (t : TradeRecord) (trades : Trades)
    → validate_trade t ≡ ok tt
    → store_found (some t) trades ≡ ok (some t, insert t.trade_id t trades)
unfolding store_found
store_found-valid t trades h = rw (store_trade-valid t trades h) refl

module _ (pip_size : String → Result ℕ) (account_currency : String) where
  -- The fields that closing a trade of a known pip size sets.
  abbrev pub closing : TradeRecord → ℕ → TradeClosedEvent → CloseFields
  closing t size event =
      let move = pos event.close_price -ℤ pos t.open_price in
      let currency = or_else account_currency event.account_currency in
      record {
        close_price = event.close_price;
        close_reason = event.close_reason;
        pips = ((if ltb_ℤ (pos 0) t.units then move else pos 0 -ℤ move), size);
        instrument_pnl = or_else (pos 0) event.realized_pnl;
        instrument_pnl_currency = currency;
        account_pnl = or_else (pos 0) event.realized_pnl;
        account_currency = currency;
        closed_at = event.closed_at;
      }

  -- The record of a closed trade, field by field.
  abbrev pub closed_trade : TradeRecord → ℕ → TradeClosedEvent → TradeRecord
  closed_trade t size event = record {
    trade_id = t.trade_id;
    instrument = t.instrument;
    units = t.units;
    open_price = t.open_price;
    close_price = some event.close_price;
    sl_price = t.sl_price;
    tp_price = t.tp_price;
    gslo_price = t.gslo_price;
    state = TradeState.closed_state;
    close_reason = some event.close_reason;
    pips = some (
      (if ltb_ℤ (pos 0) t.units
          then pos event.close_price -ℤ pos t.open_price
          else pos 0 -ℤ (pos event.close_price -ℤ pos t.open_price)),
      size,
    );
    instrument_pnl = some (or_else (pos 0) event.realized_pnl);
    instrument_pnl_currency = some (or_else account_currency event.account_currency);
    account_pnl = some (or_else (pos 0) event.realized_pnl);
    account_currency = some (or_else account_currency event.account_currency);
    opened_at = t.opened_at;
    closed_at = some event.closed_at;
    notes = t.notes;
  }

  -- On a valid table, a close event of a stored trade, with a positive price, a currency, a known pip
  -- size and a time not before the opening, is recorded: the trade is marked as closed with the price,
  -- the reason, the profit, the time and the signed move of the event, all its other fields stay, and it
  -- still keeps the contract. The records of other trades do not change.
  pub handle_trade_closed-closes :
      (event : TradeClosedEvent) (t : TradeRecord) (size : ℕ) (trades : Trades) (other : String)
      → IsValid trades
      → get_trade event.trade_id trades ≡ some t
      → pip_size t.instrument ≡ ok size
      → 0 < event.close_price
      → is_currency_from 3 (or_else account_currency event.account_currency) ≡ true
      → t.opened_at ≤ event.closed_at
      → (changed : Trades) × (handle_trade_closed pip_size account_currency event trades
          ≡ ok (some (closed_trade t size event), changed))
        × (validate_trade (closed_trade t size event) ≡ ok tt)
        × (get_trade other changed ≡ (
            if event.trade_id == other
            then some (closed_trade t size event)
            else get_trade other trades))
  unfolding handle_trade_closed close_found close_trade compute_pips
  handle_trade_closed-closes event t size trades other h found known positive currency later =
      let (same, valid) = lookup-IsValid event.trade_id t trades h found in
      let closed = with_close_fields (closing t size event) t in
      let contract =
        validate_trade-closing t (closing t size event) valid positive currency currency later in
      (
        insert t.trade_id closed trades,
        rw (found, known, found) (store_found-valid closed trades contract),
        contract,
        subst
            (λ id.
              lookup other (insert t.trade_id closed trades)
              ≡ (if id == other then some closed else lookup other trades))
            same (lookup-insert other t.trade_id closed trades),
      )
