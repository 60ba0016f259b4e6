-- ===== src/Contracts/Snapshot.antt =====
-- `TimeframeSnapshot` (core/models.py): the fields that its validator reads, and the rest of the
-- analysis payload as one value of a type `A`.
use oanda_v.Prelude.{
  ℕ, String, Bool, not, Option, none, some, nat_key, string_key, ◌==◌, ltb, raise_if, ◌≡◌, refl,
}
use oanda_v.Prelude.Results.{Result, ok, Error, ◌>>◌}
use oanda_v.Instruments.{get_instrument_spec}
use oanda_v.CandlePolicy.{Time, get_timeframe_delta}

-- `SnapshotFreshness`, as far as a snapshot looks at it.
pub record Freshness : Type 0 where
  pub instrument : String
  pub timeframe : String
  pub last_completed_candle : Option Time

pub record Snapshot (A : Type 0) : Type 0 where
  pub instrument : String
  pub timeframe : String
  pub version : ℕ
  pub last_completed_candle : Time
  pub computed_at : Time
  pub candle_range_start : Time
  pub candle_range_end : Time
  pub spread_instrument : String
  pub freshness : Freshness
  pub payload : A

abbrev is_at : Option Time → Time → Bool
is_at none t = Bool.false
is_at (some u) t = u == t

module _ {A : Type 0} where
  -- `validate_contract`
  unfoldable pub validate_snapshot : Snapshot A → Result (Unit {0})
  validate_snapshot s = do
    get_instrument_spec s.instrument
    get_timeframe_delta s.timeframe
    raise_if (not (s.last_completed_candle == s.candle_range_end)) Error.value_error
    raise_if (ltb s.candle_range_end s.candle_range_start) Error.value_error
    raise_if (ltb s.computed_at s.last_completed_candle) Error.value_error
    raise_if (not (s.freshness.instrument == s.instrument)) Error.value_error
    raise_if (not (s.freshness.timeframe == s.timeframe)) Error.value_error
    raise_if (not (is_at s.freshness.last_completed_candle s.last_completed_candle))
        Error.value_error
    raise_if (not (s.spread_instrument == s.instrument)) Error.value_error

  -- What Pydantic guarantees of a snapshot that exists.
  abbrev pub IsContract : Snapshot A → Type 0
  IsContract s = validate_snapshot s ≡ ok tt

  pub validate_snapshot-version :
      (s : Snapshot A) (n : ℕ) → validate_snapshot (record s { version = n }) ≡ validate_snapshot s
  unfolding validate_snapshot
  validate_snapshot-version s n = refl
