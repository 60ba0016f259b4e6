-- ===== src/Excursions.antt =====
-- The excursions of open trades: tracking/excursion_tracker.py, and the excursion_samples table of
-- data/persistence/trade_store.py, on which journal/excursion_repository.py calls. A number of
-- pips is a move in price steps over the pip size of the instrument; the samples of a trade have
-- one pip size, so pips of one trade are compared by their moves.
mod Tests
pub mod Coverage
pub mod Extremes
use oanda_v.Prelude.{
  ℕ, ◌+◌, ◌-◌, ◌*◌, String, Bool, true, false, ◌&&◌, ◌||◌, not, Option, none, some, List, [], ◌∷◌,
  ◌++◌, nat_key, string_key, ◌==◌, leb, ltb, all, filter, length, last?, if◌then◌else◌, Result, ok,
  raise, raise_if, Error,
}
use oanda_v.Prelude.Results.{◌>>=◌, ◌>>◌}
use oanda_v.Prelude.Dict.{Dict, lookup, insert}
use oanda_v.Prelude.Sorting.{sort_by}
use oanda_v.Prelude.Int.{ℤ, pos, negsuc}
use oanda_v.CandlePolicy.{Time}
use oanda_v.Contracts.Trade.{Price, TradeRecord, is_blank}
use oanda_v.Journal.{Trades, list_open_trades}

-- `PriceTick` (core/events.py)
pub record PriceTick : Type 0 where
  pub instrument : String
  pub bid : Price
  pub ask : Price
  pub time : Time

-- `ExcursionSample` (core/models.py)
pub record ExcursionSample : Type 0 where
  pub trade_id : String
  pub sampled_at : Time
  pub bid : Price
  pub ask : Price
  pub adverse_pips : ℕ
  pub favorable_pips : ℕ
  pub pip_size : ℕ

unfoldable pub validate_excursion_sample : ExcursionSample → Result (Unit {0})
validate_excursion_sample s = do
  raise_if (s.bid == 0) Error.value_error
  raise_if (s.ask == 0) Error.value_error
  raise_if (is_blank s.trade_id) Error.value_error
  raise_if (ltb s.ask s.bid) Error.value_error

-- The samples that the store keeps, in the order of their insertion, and `_last_written`.
pub record ExcursionTracker : Type 0 where
  pub samples : List ExcursionSample
  pub last_written : Dict String ExcursionSample

abbrev pub is_long : TradeRecord → Bool
is_long t = elim t.units [ pos n ↦ not (n == 0) | negsuc n ↦ false ]

-- `max(0.0, a - b)` is the subtraction of natural numbers.
unfoldable pub sample_of : TradeRecord → PriceTick → ℕ → ExcursionSample
sample_of t tick pip_size = record {
  trade_id = t.trade_id;
  sampled_at = tick.time;
  bid = tick.bid;
  ask = tick.ask;
  adverse_pips = if is_long t then t.open_price - tick.bid else tick.ask - t.open_price;
  favorable_pips = if is_long t then tick.bid - t.open_price else t.open_price - tick.ask;
  pip_size = pip_size;
}

abbrev pub distance : ℕ → ℕ → ℕ
distance a b = (a - b) + (b - a)

-- `delta >= min_move`, for a setting that is a numerator and a denominator.
abbrev pub has_moved : ℕ × ℕ → ℕ → ℕ → ℕ → Bool
has_moved min_move pip_size a b = leb (min_move.0 * pip_size) (distance a b * min_move.1)

-- By the last sample of the trade.
unfoldable pub moved_since : ℕ × ℕ → ExcursionSample → Option ExcursionSample → Bool
moved_since min_move s none = true
moved_since min_move s (some last) =
    has_moved min_move s.pip_size s.adverse_pips last.adverse_pips
    || has_moved min_move s.pip_size s.favorable_pips last.favorable_pips

-- `list_excursion_samples`; one invalid sample among them empties the answer.
unfoldable pub list_excursion_samples : String → List ExcursionSample → List ExcursionSample
list_excursion_samples trade_id samples =
    let found = filter (λ (s : ExcursionSample). s.trade_id == trade_id) samples in
    if all (λ s. elim (validate_excursion_sample s) [ ok _ ↦ true | raise _ ↦ false ]) found
    then sort_by (λ (s : ExcursionSample). s.sampled_at) found
    else []

pub record MaeMfe : Type 0 where
  pub trade_id : String
  pub sample_count : ℕ
  pub mae_pips : ℕ
  pub mfe_pips : ℕ
  pub last_sampled_at : Option Time

-- `max` of a field, from a first value on.
unfoldable pub max_of : (ExcursionSample → ℕ) → ℕ → List ExcursionSample → ℕ
max_of field best [] = best
max_of field best (s ∷ samples) =
    max_of field (if ltb best (field s) then field s else best) samples

-- By the samples of the trade.
unfoldable pub summarize : String → List ExcursionSample → Option MaeMfe
summarize trade_id [] = none
summarize trade_id (s ∷ samples) = some record {
  trade_id = trade_id;
  sample_count = length (s ∷ samples);
  mae_pips = max_of (λ (x : ExcursionSample). x.adverse_pips) s.adverse_pips samples;
  mfe_pips = max_of (λ (x : ExcursionSample). x.favorable_pips) s.favorable_pips samples;
  last_sampled_at = elim (last? (s ∷ samples)) [ none ↦ none | some x ↦ some x.sampled_at ];
}

abbrev pub get_trade_mae_mfe : String → List ExcursionSample → Option MaeMfe
get_trade_mae_mfe trade_id samples = summarize trade_id (list_excursion_samples trade_id samples)

-- `insert_excursion_sample`, and the new entry of `_last_written`.
unfoldable pub store_sample : ExcursionSample → ExcursionTracker → ExcursionTracker
store_sample s st = record {
  samples = st.samples ++ s ∷ [];
  last_written = insert s.trade_id s st.last_written;
}

-- The rest of the loop after one trade, by the sample that is to be written for it.
unfoldable pub written_first :
    ExcursionSample
    → ExcursionTracker × Result (List ExcursionSample)
    → ExcursionTracker × Result (List ExcursionSample)
written_first s (st, ok written) = (st, ok (s ∷ written))
written_first s (st, raise e) = (st, raise e)

unfoldable pub after_trade :
    Result (Option ExcursionSample)
    → (ExcursionTracker → ExcursionTracker × Result (List ExcursionSample))
    → ExcursionTracker
    → ExcursionTracker × Result (List ExcursionSample)
after_trade (raise e) rest st = (st, raise e)
after_trade (ok none) rest st = rest st
after_trade (ok (some s)) rest st = written_first s (rest (store_sample s st))

module _ (get_pip_size : String → Result ℕ) (min_move : ℕ × ℕ) where
  unfoldable pub build_sample : TradeRecord → PriceTick → Result ExcursionSample
  build_sample t tick = do
    pip_size ← get_pip_size t.instrument
    validate_excursion_sample (sample_of t tick pip_size)
    ok (sample_of t tick pip_size)

  unfoldable pub should_write : ExcursionSample → ExcursionTracker → Bool
  should_write s st = moved_since min_move s (lookup s.trade_id st.last_written)

  -- What the loop writes for one trade.
  unfoldable pub sample_trade :
      TradeRecord → PriceTick → ExcursionTracker → Result (Option ExcursionSample)
  sample_trade t tick st =
      if t.instrument == tick.instrument
      then (build_sample t tick >>= λ s. ok (if should_write s st then some s else none))
      else ok none

  unfoldable pub process_trades :
      List TradeRecord
      → PriceTick
      → ExcursionTracker
      → ExcursionTracker × Result (List ExcursionSample)
  process_trades [] tick st = (st, ok [])
  process_trades (t ∷ ts) tick st = after_trade (sample_trade t tick st) (process_trades ts tick) st

  abbrev pub process_tick :
      Trades → PriceTick → ExcursionTracker → ExcursionTracker × Result (List ExcursionSample)
  process_tick trades tick st = process_trades (list_open_trades trades) tick st
