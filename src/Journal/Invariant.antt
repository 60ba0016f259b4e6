-- ===== src/Journal/Invariant.antt =====
-- Every call of the journal keeps the table valid (journal/journal_service.py).
use oanda_v.Prelude.{
  ℕ, refl, inl, inr, String, Option, none, some, List, [], ◌∷◌, string_key, Result, ok, raise,
}
use oanda_v.Prelude.Results.{Result-cases}
use oanda_v.Contracts.Trade.{TradeRecord, validate_trade}
use oanda_v.Journal.{
  Trades, TradeOpenedEvent, TradeModifiedEvent, TradeClosedEvent, store_trade, store_found,
  close_trade, set_trade_notes, handle_trade_opened, handle_trade_modified, handle_trade_closed,
  close_found, compute_pips,
}
use oanda_v.Journal.Records.{IsValid, insert-IsValid, store_trade-valid, store_trade-invalid}

-- The table after a call, which leaves it as it is where it raises.
abbrev pub after : {A : Type 0} → Result (A × Trades) → Trades → Trades
after (raise e) trades = trades
after (ok (_, changed)) trades = changed

pub data Call : Type 0 where
  opened : TradeOpenedEvent → Call
  modified : TradeModifiedEvent → Call
  closed : TradeClosedEvent → Call
  noted : String → Option String → Call

store_trade-IsValid :
    (t : TradeRecord) (trades : Trades)
    → IsValid trades
    → IsValid (after (store_trade t trades) trades)
store_trade-IsValid t trades h = elim (Result-cases (validate_trade t)) [
  | inl (tt, valid) ↦
      rw (store_trade-valid t trades valid) (insert-IsValid t.trade_id t trades (refl, valid) h)
  | inr (e, bad) ↦ rw (store_trade-invalid t trades e bad) h
]

store_found-IsValid :
    (o : Option TradeRecord) (trades : Trades)
    → IsValid trades
    → IsValid (after (store_found o trades) trades)
unfolding store_found
store_found-IsValid none trades h = h
store_found-IsValid (some t) trades h = elim (Result-cases (validate_trade t)) [
  | inl (tt, valid) ↦
      rw (store_trade-valid t trades valid) (insert-IsValid t.trade_id t trades (refl, valid) h)
  | inr (e, bad) ↦ rw (store_trade-invalid t trades e bad) h
]

module _ (pip_size : String → Result ℕ) (account_currency : String) where
  close_found-IsValid :
      (o : Option TradeRecord) (event : TradeClosedEvent) (trades : Trades)
      → IsValid trades
      → IsValid (after (close_found pip_size account_currency o event trades) trades)
  unfolding close_found close_trade
  close_found-IsValid none event trades h = h
  close_found-IsValid (some t) event trades h =
      elim (Result-cases (compute_pips pip_size account_currency t event)) [
        | inl (pips, found) ↦ rw found (store_found-IsValid _ trades h)
        | inr (e, failed) ↦ rw failed h
      ]

  unfoldable pub run_call : Call → Trades → Trades
  run_call (Call.opened event) trades = after (handle_trade_opened event trades) trades
  run_call (Call.modified event) trades = after (handle_trade_modified event trades) trades
  run_call (Call.closed event) trades =
      after (handle_trade_closed pip_size account_currency event trades) trades
  run_call (Call.noted trade_id notes) trades = after (set_trade_notes trade_id notes trades) trades

  unfoldable pub run_calls : List Call → Trades → Trades
  run_calls [] trades = trades
  run_calls (call ∷ calls) trades = run_calls calls (run_call call trades)

  run_call-IsValid :
      (call : Call) (trades : Trades) → IsValid trades → IsValid (run_call call trades)
  unfolding run_call handle_trade_opened handle_trade_modified handle_trade_closed set_trade_notes
  run_call-IsValid (Call.opened event) trades h = store_trade-IsValid _ trades h
  run_call-IsValid (Call.modified event) trades h = store_found-IsValid _ trades h
  run_call-IsValid (Call.closed event) trades h = close_found-IsValid _ event trades h
  run_call-IsValid (Call.noted trade_id notes) trades h = store_found-IsValid _ trades h

  -- After any calls of the journal's handlers and `set_trade_notes`, also calls that raise, on a valid
  -- trades table, every row stands under its own trade id and keeps the contract of `TradeRecord`.
  pub run_calls-IsValid :
      (calls : List Call) (trades : Trades) → IsValid trades → IsValid (run_calls calls trades)
  unfolding run_calls
  run_calls-IsValid [] trades h = h
  run_calls-IsValid (call ∷ calls) trades h =
      run_calls-IsValid calls (run_call call trades) (run_call-IsValid call trades h)
