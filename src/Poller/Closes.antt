-- ===== src/Poller/Closes.antt =====
-- The second loop's step: a trade that the broker no longer has open (background/poller_task.py).
use oanda_v.Prelude.{
  ℕ, ◌<◌, ◌≤◌, ◌≡◌, inl, inr, refl, sym, ap, subst, String, true, false, Option, none, some, [],
  ◌∷◌, nat_key, string_key, ◌==◌, if◌then◌else◌, ok, arith, Option-cases, test_cases,
}
use oanda_v.Prelude.Dict.{Dict, lookup, insert, or_else, lookup-insert_self}
use oanda_v.Prelude.Int.{abs, pos, ◌-ℤ◌, ltb_ℤ}
use oanda_v.CandlePolicy.{Time}
use oanda_v.Contracts.Trade.{
  TradeRecord, TradeState, is_currency_from, is_blank, validate_opening, validate_trade,
  validate_trade-opening,
}
use oanda_v.Journal.{
  Trades, TradeClosedEvent, with_close_fields, close_found, close_trade, compute_pips,
  handle_trade_closed,
}
use oanda_v.Journal.Records.{lookup-IsValid}
use oanda_v.Journal.Closing.{closing, store_found-valid, validate_trade-closing}
use oanda_v.Poller.{
  OpenTrade, TradeDetail, Event, Services, resolve_close_price, closed_event, close_known,
  close_missing,
}
use oanda_v.Poller.Loops.{Succeeds}
use oanda_v.Poller.Steps.{Inv, Tracks, insert-Inv, insert-Frame}

-- A trade that can be closed by a detail.
pub record IsClosable (s : Services) (now : Time) (t : TradeRecord) (d : TradeDetail) : Type 0 where
  pub resolved : String
  pub size : ℕ
  pub instrument_known : s.resolve t.instrument ≡ ok resolved
  pub size_known : s.pip_size t.instrument ≡ ok size
  pub some_price : 0 < resolve_close_price d t.open_price
  pub in_time : t.opened_at ≤ or_else now d.close_time

-- A trade that the broker no longer has, and has a detail of, can be closed by it.
abbrev pub Closable : Services → Time → TradeRecord → Option OpenTrade → Option TradeDetail → Type 0
Closable s now t (some _) detail = Unit
Closable s now t none none = Unit
Closable s now t none (some d) = IsClosable s now t d

module _ (s : Services) (currency : String) (now : Time) where
  -- What the journal has of a trade that was open before: still the same if the broker has no detail,
  -- and closed otherwise, at the price and with the profit, the reason and the time of the detail, and
  -- with all else as it was.
  abbrev pub Settled : TradeRecord → Option TradeDetail → Option TradeRecord → Type 0
  Settled t none o = o ≡ some t
  Settled t (some d) o =
      (size : ℕ) × (s.pip_size t.instrument ≡ ok size)
      × (o
          ≡ some (record t {
            close_price = some (resolve_close_price d t.open_price);
            state = TradeState.closed_state;
            close_reason = some (
                s.infer_close_reason t.trade_id t.sl_price t.tp_price
                  (resolve_close_price d t.open_price) d.close_reason);
            pips = some (
              (if ltb_ℤ (pos 0) t.units
                  then pos (resolve_close_price d t.open_price) -ℤ pos t.open_price
                  else pos 0 -ℤ (pos (resolve_close_price d t.open_price) -ℤ pos t.open_price)),
              size,
            );
            instrument_pnl = some (or_else (pos 0) d.realized_pl);
            instrument_pnl_currency = some currency;
            account_pnl = some (or_else (pos 0) d.realized_pl);
            account_currency = some currency;
            closed_at = some (or_else now d.close_time);
          }))

  -- The same for a trade that the broker may still have, whose payload the journal follows then.
  abbrev pub SettledOrTracked :
      Option OpenTrade → String → TradeRecord → Option TradeDetail → Option TradeRecord → Type 0
  SettledOrTracked (some p) k t d o = Tracks s now (some t) (k, p) o
  SettledOrTracked none k t d o = Settled t d o

module _ (s : Services) (currency : String) (now : Time) where
  abbrev pub ending_of :
      (t : TradeRecord) (d : TradeDetail) → IsClosable s now t d → TradeClosedEvent
  ending_of t d good = record {
    trade_id = t.trade_id;
    instrument = good.resolved;
    units = t.units;
    open_price = t.open_price;
    close_price = resolve_close_price d t.open_price;
    realized_pnl = d.realized_pl;
    close_reason =
        s.infer_close_reason t.trade_id t.sl_price t.tp_price (resolve_close_price d t.open_price)
          d.close_reason;
    closed_at = or_else now d.close_time;
    account_currency = some currency;
  }

  valid-units : (t : TradeRecord) → validate_trade t ≡ ok tt → (abs t.units == 0) ≡ false
  unfolding validate_opening
  valid-units t h = let h' = validate_trade-opening t h in ground arith

  closed_event-closable :
      (t : TradeRecord) (d : TradeDetail) (good : IsClosable s now t d)
      → validate_trade t ≡ ok tt
      → is_blank currency ≡ false
      → closed_event s currency now t d ≡ ok (ending_of t d good)
  unfolding closed_event
  closed_event-closable t d good valid filled =
      rw (good.instrument_known, valid-units t valid, filled) refl

  module _ (filled : is_blank currency ≡ false) (letters : is_currency_from 3 currency ≡ true)
      (trade_detail : String → Option TradeDetail) (current_by_id : Dict String OpenTrade) where
    -- The trade follows the payload of the broker, or is as it was.
    abbrev pub Present : Option OpenTrade → String → TradeRecord → Option TradeRecord → Type 0
    Present (some p) k t o = Tracks s now (some t) (k, p) o
    Present none k t o = o ≡ some t

    abbrev pub Existing : String × TradeRecord → Option TradeRecord → Type 0
    Existing x o =
        Closable s now x.1 (lookup x.0 current_by_id) (trade_detail x.0)
        × Present (lookup x.0 current_by_id) x.0 x.1 o

    abbrev pub After : String × TradeRecord → Option TradeRecord → Type 0
    After x o =
        SettledOrTracked s currency now (lookup x.0 current_by_id) x.0 x.1 (trade_detail x.0) o

    abbrev pub Done : String × TradeRecord → Trades → Type 0
    Done x trades =
        Succeeds Inv After (close_missing s currency now trade_detail current_by_id) x trades

    self-Frame :
        (k : String) (trades : Trades) (j : String)
        → lookup j trades ≡ (if k == j then lookup k trades else lookup j trades)
    self-Frame k trades j = elim (test_cases k j) [
      | inl (e, p) ↦ rw (e, p) refl
      | inr (f, _) ↦ rw f refl
    ]

    close_missing-closes :
        (x : String × TradeRecord) (trades : Trades) (d : TradeDetail)
        → Inv trades
        → lookup x.0 current_by_id ≡ none
        → trade_detail x.0 ≡ some d
        → IsClosable s now x.1 d
        → lookup x.0 trades ≡ some x.1
        → Done x trades
    unfolding close_missing close_known handle_trade_closed close_found close_trade compute_pips
    close_missing-closes x trades d inv gone detailed good found =
        let t = x.1 in
        let (same, valid) = lookup-IsValid x.0 t trades inv.0 found in
        let event = ending_of t d good in
        let u = with_close_fields (closing s.pip_size s.default_currency t good.size event) t in
        let contract =
          validate_trade-closing t (closing s.pip_size s.default_currency t good.size event) valid
            good.some_price letters letters good.in_time in
        let events = Event.closed event ∷ [] in
        let found' = subst (λ k. lookup k trades ≡ some t) (sym same) found in
        (
          events,
          insert x.0 u trades,
          rw
              (
                gone,
                detailed,
                closed_event-closable t d good valid filled,
                found',
                good.size_known,
                found',
                store_found-valid u trades contract,
              )
              (ap (λ k. ok (events, insert k u trades)) same),
          insert-Inv x.0 u trades (same, contract) inv,
          rw (gone, detailed) (good.size, good.size_known, lookup-insert_self x.0 u trades),
          insert-Frame x.0 u trades,
        )

    pub close_missing-Succeeds :
        (x : String × TradeRecord) (trades : Trades)
        → Inv trades
        → Existing x (lookup x.0 trades)
        → Done x trades
    unfolding close_missing close_known
    close_missing-Succeeds x trades inv (closable, here) =
        elim (Option-cases (lookup x.0 current_by_id)) [
          | inr (p, listed) ↦ (
            [],
            trades,
            rw listed refl,
            inv,
            rw listed (rw listed at here),
            self-Frame x.0 trades,
          )
          | inl gone ↦ elim (Option-cases (trade_detail x.0)) [
            | inl missing ↦ (
              [],
              trades,
              rw (gone, missing) refl,
              inv,
              rw (gone, missing) (rw gone at here),
              self-Frame x.0 trades,
            )
            | inr (d, detailed) ↦
                close_missing-closes x trades d inv gone detailed (rw (gone, detailed) at closable)
                  (rw gone at here)
          ]
        ]
