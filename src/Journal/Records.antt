-- ===== src/Journal/Records.antt =====
-- What the trades table holds (data/persistence/trade_store.py).
use oanda_v.Prelude.{
  ◌≡◌, refl, inl, inr, String, some, [], ◌∷◌, string_key, test_cases, ok, raise, Error, All, ap,
}
use oanda_v.Prelude.Dict.{lookup, insert}
use oanda_v.Contracts.Trade.{TradeRecord, validate_trade}
use oanda_v.Journal.{Trades, upsert_trade, store_trade}

-- A row stands under its own id, and keeps the contract.
abbrev pub IsRow : String × TradeRecord → Type 0
IsRow (trade_id, t) = (t.trade_id ≡ trade_id) × (validate_trade t ≡ ok tt)

abbrev pub IsValid : Trades → Type 0
IsValid trades = All IsRow trades

pub lookup-IsValid :
    (trade_id : String) (t : TradeRecord) (trades : Trades)
    → IsValid trades
    → lookup trade_id trades ≡ some t
    → IsRow (trade_id, t)
unfolding lookup
lookup-IsValid trade_id t [] h found = cc
lookup-IsValid trade_id t ((j, u) ∷ trades) ((same, valid), h) found =
    elim (test_cases j trade_id) [
      | inl (same_key, p) ↦
          let e : u ≡ t = cc (rw same_key at found) in
          (cc (ap (λ (x : TradeRecord). x.trade_id) e), rw⁻¹ e valid)
      | inr (other, _) ↦ lookup-IsValid trade_id t trades h (rw other at found)
    ]

pub insert-IsValid :
    (trade_id : String) (t : TradeRecord) (trades : Trades)
    → IsRow (trade_id, t)
    → IsValid trades
    → IsValid (insert trade_id t trades)
unfolding insert
insert-IsValid trade_id t [] row h = (row, tt)
insert-IsValid trade_id t ((j, u) ∷ trades) row (first, h) = elim (test_cases j trade_id) [
  | inl (same_key, p) ↦ rw same_key ((cc (p, row.0), row.1), h)
  | inr (other, _) ↦ rw other (first, insert-IsValid trade_id t trades row h)
]

-- Where a record is valid it is written.
pub store_trade-valid :
    (t : TradeRecord) (trades : Trades)
    → validate_trade t ≡ ok tt
    → store_trade t trades ≡ ok (t, insert t.trade_id t trades)
unfolding store_trade upsert_trade
store_trade-valid t trades h = rw h refl

pub store_trade-invalid :
    (t : TradeRecord) (trades : Trades) (e : Error)
    → validate_trade t ≡ raise e
    → store_trade t trades ≡ raise e
unfolding store_trade
store_trade-invalid t trades e h = rw h refl
