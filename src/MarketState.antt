-- ===== src/MarketState.antt =====
-- `MarketStateStore` (core/market_state.py): the latest snapshot, the pinned history and the
-- version counter of every (instrument, timeframe), and one order-block tracker per instrument.
-- A deep copy of an immutable value is the value, and the lock makes each call one step.
pub mod History
pub mod Log
pub mod Publish
pub mod Runs
pub mod Trackers
mod Tests
use oanda_v.Prelude.{
  ℕ, ◌+◌, String, Option, none, some, List, [], ◌∷◌, nat_key, string_key, pair_key, ltb, length,
  if◌then◌else◌, Result, ok, raise, Error,
}
use oanda_v.Prelude.Results.{◌>>=◌, ◌>>◌}
use oanda_v.Prelude.Dict.{Dict, lookup, lookup_or, insert}
use oanda_v.CandlePolicy.{Time}
use oanda_v.Contracts.Snapshot.{Snapshot, validate_snapshot}
use oanda_v.Contracts.Tracker.{OrderBlockRecord, Tracker, validate_tracker}

abbrev pub SnapshotKey : Type 0
SnapshotKey = String × String

pub record Store (A R : Type 0) : Type 0 where
  pub snapshot_history_retention : ℕ
  pub latest_snapshots : Dict SnapshotKey (Snapshot A)
  pub snapshot_history : Dict SnapshotKey (Dict ℕ (Snapshot A))
  pub snapshot_versions : Dict SnapshotKey ℕ
  pub order_block_trackers : Dict String (Tracker R)
  pub order_block_tracker_versions : Dict String ℕ

-- `__init__`; a negative retention, which it refuses, is no natural number.
unfoldable pub new_store : {A R : Type 0} → ℕ → Store A R
new_store retention = record {
  snapshot_history_retention = retention;
  latest_snapshots = [];
  snapshot_history = [];
  snapshot_versions = [];
  order_block_trackers = [];
  order_block_tracker_versions = [];
}

-- `while len(history) > max_versions: history.popitem(last=False)`
unfoldable pub evict {ℓ} : {V : Type ℓ} → ℕ → List V → List V
evict max_versions [] = []
evict max_versions (e ∷ history) =
    if ltb max_versions (length (e ∷ history)) then evict max_versions history else e ∷ history

abbrev pub snapshot_key : {A : Type 0} → Snapshot A → SnapshotKey
snapshot_key s = (s.instrument, s.timeframe)

-- `_stamp_snapshot_version`
unfoldable pub stamp_snapshot_version : {A : Type 0} → Snapshot A → ℕ → Result (Snapshot A)
stamp_snapshot_version s n = do
  let payload = record s { version = n }
  validate_snapshot payload
  ok payload

-- `_stamp_order_block_tracker_version`
unfoldable pub stamp_tracker_version : {R : Type 0} → Tracker R → ℕ → Result (Tracker R)
stamp_tracker_version t n = do
  let payload = record t { tracker_version = n }
  validate_tracker payload
  ok payload

module _ {A R : Type 0} where
  abbrev pub history_of : SnapshotKey → Store A R → Dict ℕ (Snapshot A)
  history_of key st = lookup_or key [] st.snapshot_history

  unfoldable pub publish_snapshot : Snapshot A → Store A R → Result (Snapshot A × Store A R)
  publish_snapshot snapshot st = do
    let key = snapshot_key snapshot
    let next_version = lookup_or key 0 st.snapshot_versions + 1
    published ← stamp_snapshot_version snapshot next_version
    let history = insert next_version published (history_of key st)
    ok (
      published,
      record st {
        latest_snapshots = insert key published st.latest_snapshots;
        snapshot_history =
            insert key (evict (st.snapshot_history_retention + 1) history) st.snapshot_history;
        snapshot_versions = insert key next_version st.snapshot_versions;
      },
    )

  unfoldable pub get_snapshot : String → String → Store A R → Option (Snapshot A)
  get_snapshot instrument timeframe st = lookup (instrument, timeframe) st.latest_snapshots

  unfoldable pub get_snapshot_version : String → String → ℕ → Store A R → Option (Snapshot A)
  get_snapshot_version instrument timeframe version st =
      elim (lookup (instrument, timeframe) st.snapshot_history) [
        | none ↦ none
        | some history ↦ lookup version history
      ]

  -- The loop that both tracker methods begin with.
  unfoldable pub check_pinned : String → Dict String ℕ → Store A R → Result (Unit {0})
  check_pinned instrument [] st = ok tt
  check_pinned instrument ((timeframe, version) ∷ rest) st =
      elim (get_snapshot_version instrument timeframe version st) [
        | none ↦ raise Error.key_error
        | some _ ↦ check_pinned instrument rest st
      ]

  -- `_publish_order_block_tracker_locked`, which is also all of `publish_order_block_tracker`.
  unfoldable pub publish_order_block_tracker :
      Tracker R → Store A R → Result (Tracker R × Store A R)
  publish_order_block_tracker tracker st = do
    check_pinned tracker.instrument tracker.source_snapshot_versions st
    let next_version = lookup_or tracker.instrument 0 st.order_block_tracker_versions + 1
    published ← stamp_tracker_version tracker next_version
    ok (
      published,
      record st {
        order_block_trackers = insert published.instrument published st.order_block_trackers;
        order_block_tracker_versions =
            insert published.instrument next_version st.order_block_tracker_versions;
      },
    )

  unfoldable pub get_order_block_tracker : String → Store A R → Option (Tracker R)
  get_order_block_tracker instrument st = lookup instrument st.order_block_trackers

  -- `now` is the reading of the clock for `created_at`.
  unfoldable pub assemble_order_block_tracker :
      String
      → List (OrderBlockRecord R)
      → Dict String ℕ
      → Time
      → Store A R
      → Result (Tracker R × Store A R)
  assemble_order_block_tracker instrument records versions now st = do
    check_pinned instrument versions st
    let tracker : Tracker R = record {
      instrument = instrument;
      tracker_version = 0;
      created_at = now;
      records = records;
      source_snapshot_versions = versions;
    }
    validate_tracker tracker
    publish_order_block_tracker tracker st
