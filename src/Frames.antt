-- ===== src/Frames.antt =====
-- Candle frames, and the pandas operations that the code applies to them. A frame of the model has
-- the canonical columns, so the checks of `validate_candle_df` (core/candle_policy.py) on columns
-- and dtypes have nothing to refuse. Prices are values of a type `P`.
pub mod Sorting
pub mod Merge
use oanda_v.Prelude.{
  ℕ, ◌+◌, ◌-◌, ◌≤◌, ◌<◌, List, [], ◌∷◌, ◌++◌, nat_key, ◌==◌, ltb, leb, length, drop, any, filter,
  if◌then◌else◌,
}
use oanda_v.CandlePolicy.{Time}

pub record Candle (P : Type 0) : Type 0 where
  pub time : Time
  pub open_price : P
  pub high : P
  pub low : P
  pub close : P
  pub tick_volume : ℕ

module _ {P : Type 0} where
  -- Puts a candle before the first one that is not older.
  unfoldable pub insert_by_time : Candle P → List (Candle P) → List (Candle P)
  insert_by_time c [] = c ∷ []
  insert_by_time c (d ∷ ds) = if leb c.time d.time then c ∷ d ∷ ds else d ∷ insert_by_time c ds

  -- `sort_values("time", kind="mergesort")`: a stable sort.
  unfoldable pub sort_by_time : List (Candle P) → List (Candle P)
  sort_by_time [] = []
  sort_by_time (c ∷ cs) = insert_by_time c (sort_by_time cs)

  -- `validate_candle_df`
  abbrev pub validate_candle_df : List (Candle P) → List (Candle P)
  validate_candle_df candles = sort_by_time candles

  -- `drop_duplicates(subset=["time"], keep="last")`
  unfoldable pub drop_duplicates : List (Candle P) → List (Candle P)
  drop_duplicates [] = []
  drop_duplicates (c ∷ cs) =
      if any (λ d. d.time == c.time) cs then drop_duplicates cs else c ∷ drop_duplicates cs

  -- The merge of `CandleCache._append_refresh` (providers/cache.py).
  unfoldable pub combine : List (Candle P) → List (Candle P) → List (Candle P)
  combine existing newer = sort_by_time (drop_duplicates (existing ++ newer))

  -- `candles.tail(count)`
  abbrev pub tail : ℕ → List (Candle P) → List (Candle P)
  tail count candles = drop (length candles - count) candles

  -- The rows of `trim_to_closed` at a given time.
  unfoldable pub trim_to_closed : ℕ → Time → List (Candle P) → List (Candle P)
  trim_to_closed delta now candles =
      filter (λ c. leb (c.time + delta) now) (validate_candle_df candles)
