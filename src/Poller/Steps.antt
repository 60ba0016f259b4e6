-- ===== src/Poller/Steps.antt =====
-- The first loop's step: an open trade of the broker (background/poller_task.py).
use oanda_v.Prelude.{
  ◌≡◌, inl, inr, refl, sym, ap, ◌∙◌, String, true, false, ◌&&◌, Option, none, some, [], ◌∷◌,
  nat_key, string_key, ◌==◌, if◌then◌else◌, ok, arith, Bool-cases, Option-cases, test_cases,
}
use oanda_v.Prelude.Dict.{Dict, lookup, insert, or_else, lookup-insert, lookup-insert_self}
use oanda_v.Prelude.Int.{ℤ, abs}
use oanda_v.CandlePolicy.{Time}
use oanda_v.Contracts.Trade.{
  TradeRecord, Price, is_bad_price, is_symbol, is_blank, validate_opening, validate_trade,
}
use oanda_v.Journal.{
  Trades, TradeOpenedEvent, TradeModifiedEvent, is_open, opened_record, handle_trade_opened,
  handle_trade_modified,
}
use oanda_v.Journal.Records.{IsRow, IsValid, insert-IsValid, lookup-IsValid, store_trade-valid}
use oanda_v.Journal.Closing.{store_found-valid}
use oanda_v.Poller.{OpenTrade, Event, Services, opened_event, sync_found, sync_payload, same_price}
use oanda_v.Poller.Loops.{IsDict, insert-IsDict, Frame, Succeeds}

abbrev pub Inv : Trades → Type 0
Inv trades = IsValid trades × IsDict trades

pub insert-Inv :
    (k : String) (t : TradeRecord) (trades : Trades)
    → IsRow (k, t)
    → Inv trades
    → Inv (insert k t trades)
insert-Inv k t trades row (valid, d) =
    (insert-IsValid k t trades row valid, insert-IsDict k t trades d)

pub insert-Frame :
    (k : String) (t : TradeRecord) (trades : Trades) → Frame k trades (insert k t trades)
insert-Frame k t trades j =
    lookup-insert j k t trades
    ∙ ap (λ o. if k == j then o else lookup j trades) (sym (lookup-insert_self k t trades))

-- A payload from which a trade can be opened or modified.
pub record IsPayload (s : Services) (x : String × OpenTrade) : Type 0 where
  pub instrument : String
  pub resolved : String
  pub units : ℤ
  pub price : Price
  pub instrument_given : x.1.instrument ≡ some instrument
  pub units_given : x.1.current_units ≡ some units
  pub price_given : x.1.price ≡ some price
  pub instrument_known : s.resolve instrument ≡ ok resolved
  pub symbol : is_symbol resolved ≡ true
  pub named : is_blank x.0 ≡ false
  pub some_units : (abs units == 0) ≡ false
  pub some_price : (price == 0) ≡ false
  pub good_sl : is_bad_price x.1.stop_loss_price ≡ false
  pub good_tp : is_bad_price x.1.take_profit_price ≡ false
  pub good_gslo : is_bad_price x.1.gslo_price ≡ false

-- What the journal has of a payload's trade. A trade that was not open before is open, with what the
-- payload says. One that was open is still open, with the payload's stop-loss and take-profit prices,
-- and with all else as it was: its units too, though the broker may have closed a part of them.
abbrev pub Tracks :
    Services → Time → Option TradeRecord → String × OpenTrade → Option TradeRecord → Type 0
Tracks s now none x o =
    (t : TradeRecord) × (o ≡ some t)
    × (is_open t ≡ true)
    × ((instrument : String) × (x.1.instrument ≡ some instrument)
        × (s.resolve instrument ≡ ok t.instrument))
    × (x.1.current_units ≡ some t.units)
    × (x.1.price ≡ some t.open_price)
    × (t.sl_price ≡ x.1.stop_loss_price)
    × (t.tp_price ≡ x.1.take_profit_price)
    × (t.gslo_price ≡ x.1.gslo_price)
    × (t.opened_at ≡ or_else now x.1.open_time)
Tracks s now (some b) x o =
    (is_open b ≡ true)
    × (o ≡ some (record b { sl_price = x.1.stop_loss_price; tp_price = x.1.take_profit_price }))

-- What the dictionary of open trades says of the journal's record.
abbrev pub Matches : Option TradeRecord → Option TradeRecord → Type 0
Matches none o = Unit
Matches (some t) o = (o ≡ some t) × (is_open t ≡ true)

same_price-eq : (a b : Option Price) → same_price a b ≡ true → a ≡ b
same_price-eq none none h = refl
same_price-eq none (some q) h = cc
same_price-eq (some p) none h = cc
same_price-eq (some p) (some q) h = ap (λ x. some x) ((nat_key.test_iff p q).0 h)

same_prices :
    (t : TradeRecord) (sl tp : Option Price)
    → t.sl_price ≡ sl
    → t.tp_price ≡ tp
    → t ≡ record t { sl_price = sl; tp_price = tp }
same_prices t sl tp e e' = λ i. record t { sl_price = e i; tp_price = e' i }

validate_trade-prices :
    (t : TradeRecord) (sl tp : Option Price)
    → validate_trade t ≡ ok tt
    → is_bad_price sl ≡ false
    → is_bad_price tp ≡ false
    → validate_trade (record t { sl_price = sl; tp_price = tp }) ≡ ok tt
unfolding validate_trade validate_opening
validate_trade-prices t sl tp h g g' = rw (g, g') (ground arith)

module _ (s : Services) (currency : String) (now : Time) where
  abbrev pub opening_of : (x : String × OpenTrade) → IsPayload s x → TradeOpenedEvent
  opening_of x good = record {
    trade_id = x.0;
    instrument = good.resolved;
    units = good.units;
    open_price = good.price;
    sl = x.1.stop_loss_price;
    tp = x.1.take_profit_price;
    gslo = x.1.gslo_price;
    opened_at = or_else now x.1.open_time;
    account_currency = some currency;
  }

  opened_event-payload :
      (x : String × OpenTrade) (good : IsPayload s x)
      → is_blank currency ≡ false
      → opened_event s currency now x.0 x.1 ≡ ok (opening_of x good)
  unfolding opened_event
  opened_event-payload x good h =
      rw
        (
          good.instrument_given, good.units_given, good.price_given, good.instrument_known,
          good.some_units, h,
        )
        refl

  opened_record-valid :
      (x : String × OpenTrade) (good : IsPayload s x) (trades : Trades)
      → validate_trade (opened_record (opening_of x good) trades) ≡ ok tt
  unfolding validate_trade validate_opening
  opened_record-valid x good trades =
      rw
        (
          good.some_price, good.good_sl, good.good_tp, good.good_gslo, good.symbol, good.named,
          good.some_units,
        )
        refl

  module _ (existing_open : Dict String TradeRecord) (filled : is_blank currency ≡ false) where
    abbrev pub IsReady : String × OpenTrade → Option TradeRecord → Type 0
    IsReady x o = IsPayload s x × Matches (lookup x.0 existing_open) o

    abbrev pub Synced : String × OpenTrade → Option TradeRecord → Type 0
    Synced x o = Tracks s now (lookup x.0 existing_open) x o

    abbrev pub Done : String × OpenTrade → Trades → Type 0
    Done x trades = Succeeds Inv Synced (sync_payload s currency now existing_open) x trades

    sync_payload-opens :
        (x : String × OpenTrade) (trades : Trades)
        → Inv trades
        → IsPayload s x
        → lookup x.0 existing_open ≡ none
        → Done x trades
    unfolding sync_payload sync_found handle_trade_opened
    sync_payload-opens x trades inv good new =
        let event = opening_of x good in
        let t = opened_record event trades in
        let valid = opened_record-valid x good trades in
        (
          Event.opened event ∷ [],
          insert x.0 t trades,
          rw (new, opened_event-payload x good filled, store_trade-valid t trades valid) refl,
          insert-Inv x.0 t trades (refl, valid) inv,
          rw new (
            t,
            lookup-insert_self x.0 t trades,
            refl,
            (good.instrument, good.instrument_given, good.instrument_known),
            good.units_given,
            good.price_given,
            refl,
            refl,
            refl,
            refl,
          ),
          insert-Frame x.0 t trades,
        )

    sync_payload-modifies :
        (x : String × OpenTrade) (trades : Trades) (t : TradeRecord)
        → Inv trades
        → IsPayload s x
        → lookup x.0 existing_open ≡ some t
        → lookup x.0 trades ≡ some t
        → is_open t ≡ true
        → (same_price t.sl_price x.1.stop_loss_price && same_price t.tp_price x.1.take_profit_price)
          ≡ false
        → Done x trades
    unfolding sync_payload sync_found handle_trade_modified
    sync_payload-modifies x trades t inv good known found trading differs =
        let (same, valid) = lookup-IsValid x.0 t trades inv.0 found in
        let u : TradeRecord = record t {
          sl_price = x.1.stop_loss_price;
          tp_price = x.1.take_profit_price;
        } in
        let contract =
          validate_trade-prices t x.1.stop_loss_price x.1.take_profit_price valid good.good_sl
            good.good_tp in
        let event : TradeModifiedEvent = record {
          trade_id = x.0;
          new_sl = x.1.stop_loss_price;
          new_tp = x.1.take_profit_price;
          modified_at = now;
        } in
        let events = Event.modified event ∷ [] in
        (
          events,
          insert x.0 u trades,
          rw (known, differs, found, store_found-valid u trades contract)
              (ap (λ k. ok (events, insert k u trades)) same),
          insert-Inv x.0 u trades (same, contract) inv,
          rw known (trading, lookup-insert_self x.0 u trades),
          insert-Frame x.0 u trades,
        )

    sync_payload-keeps :
        (x : String × OpenTrade) (trades : Trades) (t : TradeRecord)
        → Inv trades
        → lookup x.0 existing_open ≡ some t
        → lookup x.0 trades ≡ some t
        → is_open t ≡ true
        → same_price t.sl_price x.1.stop_loss_price ≡ true
        → same_price t.tp_price x.1.take_profit_price ≡ true
        → Done x trades
    unfolding sync_payload sync_found
    sync_payload-keeps x trades t inv known found trading sl tp = (
      [],
      trades,
      rw (known, sl, tp) refl,
      inv,
      rw known (
        trading,
        found
            ∙ ap (λ b. some b)
                (same_prices t x.1.stop_loss_price x.1.take_profit_price
                  (same_price-eq t.sl_price x.1.stop_loss_price sl)
                  (same_price-eq t.tp_price x.1.take_profit_price tp)),
      ),
      λ j. elim (test_cases x.0 j) [ inl (e, p) ↦ rw (e, p) refl | inr (f, _) ↦ rw f refl ],
    )

    pub sync_payload-Succeeds :
        (x : String × OpenTrade) (trades : Trades)
        → Inv trades
        → IsReady x (lookup x.0 trades)
        → Done x trades
    sync_payload-Succeeds x trades inv (good, match) =
        elim (Option-cases (lookup x.0 existing_open)) [
          | inl new ↦ sync_payload-opens x trades inv good new
          | inr (t, known) ↦
              let (found, trading) = rw known at match in
              elim (Bool-cases (same_price t.sl_price x.1.stop_loss_price)) [
                | inl sl ↦ elim (Bool-cases (same_price t.tp_price x.1.take_profit_price)) [
                  | inl tp ↦ sync_payload-keeps x trades t inv known found trading sl tp
                  | inr tp ↦
                      sync_payload-modifies x trades t inv good known found trading
                        (rw (sl, tp) refl)
                ]
                | inr sl ↦
                    sync_payload-modifies x trades t inv good known found trading (rw sl refl)
              ]
        ]
