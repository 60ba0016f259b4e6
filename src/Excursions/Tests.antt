-- ===== src/Excursions/Tests.antt =====
-- A long trade and three ticks.
use oanda_v.Prelude.{
  ℕ, test_cases, inl, inr, subst, ◌≡◌, ◌≤◌, ◌*◌, ◌+◌, refl, String, none, some, [], ◌∷◌, string_key,
  nat_key, ◌==◌, Result, ok, raise, Any, Error, if◌then◌else◌,
}
use oanda_v.Prelude.Int.{pos}
use oanda_v.Prelude.Dict.{lookup, insert}
use oanda_v.Prelude.Steps.{Steps}
use oanda_v.Prelude.Sorting.{sort_by, insert_by}
use oanda_v.Contracts.Trade.{TradeRecord, TradeState, is_blank}
use oanda_v.Journal.{Trades, insert_newest, sort_newest}
use oanda_v.Excursions.{
  PriceTick, ExcursionSample, ExcursionTracker, MaeMfe, validate_excursion_sample, sample_of,
  moved_since, list_excursion_samples, max_of, summarize, get_trade_mae_mfe, store_sample,
  written_first, after_trade, build_sample, should_write, sample_trade, process_trades,
  process_tick,
}
use oanda_v.Excursions.Coverage.{IsTracker}
use oanda_v.Excursions.Extremes.{TickStep, get_trade_mae_mfe_bounds}

program : Unit {0}
unfolding lookup insert sort_by insert_by is_blank insert_newest sort_newest
    validate_excursion_sample sample_of moved_since list_excursion_samples max_of summarize
    store_sample written_first after_trade build_sample should_write sample_trade process_trades
program = tt

abbrev pip_size : String → Result ℕ
pip_size instrument = if instrument == "EUR_USD" then ok 10 else raise Error.key_error

abbrev trade : TradeRecord
trade = record {
  trade_id = "7";
  instrument = "EUR_USD";
  units = pos 100;
  open_price = 110_000;
  close_price = none;
  sl_price = none;
  tp_price = none;
  gslo_price = none;
  state = TradeState.open_state;
  close_reason = none;
  pips = none;
  instrument_pnl = none;
  instrument_pnl_currency = none;
  account_pnl = none;
  account_currency = none;
  opened_at = 50;
  closed_at = none;
  notes = none;
}

abbrev trades : Trades
trades = ("7", trade) ∷ []

abbrev at : ℕ → ℕ → PriceTick
at bid time = record { instrument = "EUR_USD"; bid = bid; ask = bid + 2; time = time }

abbrev sampled : ℕ → ℕ → ℕ → ℕ → ExcursionSample
sampled bid time adverse favorable = record {
  trade_id = "7";
  sampled_at = time;
  bid = bid;
  ask = bid + 2;
  adverse_pips = adverse;
  favorable_pips = favorable;
  pip_size = 10;
}

abbrev first : ExcursionTracker
first = record {
  samples = sampled 109_970 60 30 0 ∷ [];
  last_written = ("7", sampled 109_970 60 30 0) ∷ [];
}

first-IsTracker : IsTracker first
unfolding lookup validate_excursion_sample is_blank
first-IsTracker = record {
  valid = (refl, tt);
  lasts = λ k s h. elim (test_cases "7" k) [
    | inl (t, p) ↦
        let e : sampled 109_970 60 30 0 ≡ s = cc (rw t at h) in
        (subst (λ y. y.trade_id ≡ k) e p, Any.here e)
    | inr (t, _) ↦ let h' = rw t at h in absurd (cc)
  ];
}

-- The second tick is lower by less than half a pip and is not stored.
missed : process_tick pip_size (1, 2) trades (at 109_967 61) first ≡ (first, ok [])
unfolding program
missed = refl

get_trade_mae_mfe_bounds_example :
    (s : ExcursionSample) × (build_sample pip_size (1, 2) trade (at 109_967 61) ≡ ok s)
    × ((m : MaeMfe) × (get_trade_mae_mfe "7"
            (sampled 109_970 60 30 0 ∷ sampled 110_040 62 0 40 ∷ [])
          ≡ some m)
        × (s.adverse_pips * 2 ≤ m.mae_pips * 2 + 1 * s.pip_size)
        × (s.favorable_pips * 2 ≤ m.mfe_pips * 2 + 1 * s.pip_size))
unfolding program
get_trade_mae_mfe_bounds_example =
    get_trade_mae_mfe_bounds pip_size (1, 2) trades trade (at 109_967 61) first first
      (record {
        samples = sampled 109_970 60 30 0 ∷ sampled 110_040 62 0 40 ∷ [];
        last_written = ("7", sampled 110_040 62 0 40) ∷ [];
      })
      [] first-IsTracker missed (Any.here refl) refl
      (Steps.step (TickStep.handled trades (at 110_040 62) (ok (sampled 110_040 62 0 40 ∷ [])) refl)
        Steps.done)
