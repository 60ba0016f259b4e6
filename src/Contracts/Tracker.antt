-- ===== src/Contracts/Tracker.antt =====
-- `OrderBlockRecord` and `InstrumentOrderBlockTracker` (core/models.py): the fields that the
-- tracker's validator reads; the rest of a record is one value of a type `R`.
use oanda_v.Prelude.{
  ℕ, String, not, none, some, List, [], ◌∷◌, nat_key, string_key, ◌==◌, leb, any, raise_if,
}
use oanda_v.Prelude.Results.{Result, ok, raise, Error, ◌>>◌}
use oanda_v.Prelude.Dict.{Dict, lookup}
use oanda_v.Instruments.{get_instrument_spec}
use oanda_v.CandlePolicy.{Time, get_timeframe_delta}

pub record OrderBlockRecord (R : Type 0) : Type 0 where
  pub id : String
  pub instrument : String
  pub timeframe : String
  pub source_snapshot_version : ℕ
  pub details : R

pub record Tracker (R : Type 0) : Type 0 where
  pub instrument : String
  pub tracker_version : ℕ
  pub created_at : Time
  pub records : List (OrderBlockRecord R)
  pub source_snapshot_versions : Dict String ℕ

-- The first loop of `validate_contract`.
unfoldable pub validate_versions : Dict String ℕ → Result (Unit {0})
validate_versions [] = ok tt
validate_versions ((timeframe, version) ∷ rest) = do
  get_timeframe_delta timeframe
  raise_if (leb version 0) Error.value_error
  validate_versions rest

module _ {R : Type 0} where
  -- The checks of one record against the tracker.
  unfoldable pub validate_record :
      String → Dict String ℕ → List String → OrderBlockRecord R → Result (Unit {0})
  validate_record instrument versions seen_ids r = do
    raise_if (not (r.instrument == instrument)) Error.value_error
    raise_if (any (λ id. id == r.id) seen_ids) Error.value_error
    elim (lookup r.timeframe versions) [
      | none ↦ raise Error.value_error
      | some expected ↦ raise_if (not (r.source_snapshot_version == expected)) Error.value_error
    ]

  -- The second loop; `seen_ids` is a set.
  unfoldable pub validate_records :
      String → Dict String ℕ → List String → List (OrderBlockRecord R) → Result (Unit {0})
  validate_records instrument versions seen_ids [] = ok tt
  validate_records instrument versions seen_ids (r ∷ rest) = do
    validate_record instrument versions seen_ids r
    validate_records instrument versions (r.id ∷ seen_ids) rest

  unfoldable pub validate_tracker : Tracker R → Result (Unit {0})
  validate_tracker t = do
    get_instrument_spec t.instrument
    validate_versions t.source_snapshot_versions
    validate_records t.instrument t.source_snapshot_versions [] t.records
