-- ===== src/MarketState/Tests.antt =====
-- The state store at concrete inputs, and the theorems about it at inputs that meet their
-- hypotheses.
use oanda_v.Prelude.{
  ℕ, ◌≡◌, none, List, [], ◌∷◌, some, refl, ok, raise, Error, All, nat_key, string_key, pair_key,
  ◌+◌,
}
use oanda_v.Prelude.Dict.{lookup, lookup_or, insert}
use oanda_v.Instruments.{get_instrument_spec, instrument_registry}
use oanda_v.CandlePolicy.{get_timeframe_delta, timeframe_deltas}
use oanda_v.Contracts.Snapshot.{Snapshot, validate_snapshot, IsContract}
use oanda_v.Contracts.Tracker.{
  OrderBlockRecord, Tracker, validate_tracker, validate_record, validate_records, validate_versions,
}
use oanda_v.MarketState.{
  Store, new_store, evict, publish_snapshot, stamp_snapshot_version, get_snapshot,
  get_snapshot_version, publish_order_block_tracker, get_order_block_tracker, check_pinned,
  assemble_order_block_tracker, stamp_tracker_version,
}
use oanda_v.MarketState.Log.{empty_log, add, next, pinned, Represents, new_store-Represents}
use oanda_v.MarketState.Publish.{publish_snapshot-refines, get_snapshot_version-refines}
use oanda_v.MarketState.Runs.{
  Call, run, step, note_all, note, run-Represents, get_snapshot_version-stable,
}
use oanda_v.MarketState.Trackers.{
  IsPinned, publish_order_block_tracker-grounded, publish_order_block_tracker-unpinned,
  assemble-eq-publish,
}

program : Unit {0}
unfolding publish_snapshot stamp_snapshot_version evict new_store get_snapshot get_snapshot_version
    lookup insert validate_snapshot get_instrument_spec get_timeframe_delta instrument_registry
    timeframe_deltas publish_order_block_tracker stamp_tracker_version check_pinned validate_tracker
    validate_versions validate_records validate_record get_order_block_tracker
    assemble_order_block_tracker run step note note_all
program = tt

abbrev hourly : ℕ → Snapshot ℕ
hourly t = record {
  instrument = "EUR_USD";
  timeframe = "H1";
  version = 0;
  last_completed_candle = t;
  computed_at = t;
  candle_range_start = 0;
  candle_range_end = t;
  spread_instrument = "EUR_USD";
  freshness = record { instrument = "EUR_USD"; timeframe = "H1"; last_completed_candle = some t };
  payload = t;
}

abbrev start : Store ℕ ℕ
start = record {
  snapshot_history_retention = 1;
  latest_snapshots = [];
  snapshot_history = [];
  snapshot_versions = [];
  order_block_trackers = [];
  order_block_tracker_versions = [];
}

-- The second snapshot breaks its contract.
abbrev calls : List (Call ℕ ℕ)
calls =
    Call.publish (hourly 10)
    ∷ Call.publish (record (hourly 5) { timeframe = "H7" })
    ∷ Call.publish (hourly 20)
    ∷ Call.publish (hourly 30)
    ∷ []

abbrev block : OrderBlockRecord ℕ
block = record {
  id = "a";
  instrument = "EUR_USD";
  timeframe = "H1";
  source_snapshot_version = 3;
  details = 7;
}

abbrev tracker : ℕ → Tracker ℕ
tracker version = record {
  instrument = "EUR_USD";
  tracker_version = 0;
  created_at = 0;
  records = block ∷ [];
  source_snapshot_versions = ("H1", version) ∷ [];
}

reads :
    let st = run calls start in
    (get_snapshot_version "EUR_USD" "H1" 1 st ≡ none)
    × (get_snapshot_version "EUR_USD" "H1" 2 st ≡ some (record (hourly 20) { version = 2 }))
    × (get_snapshot "EUR_USD" "H1" st ≡ some (record (hourly 30) { version = 3 }))
    × (publish_order_block_tracker (tracker 1) st ≡ raise Error.key_error)
    × (publish_order_block_tracker (tracker 2) st ≡ raise Error.value_error)
unfolding program
reads = (refl, refl, refl, refl, refl)

start-Represents : Represents start empty_log
unfolding new_store
start-Represents = new_store-Represents 1

hourly-IsContract : IsContract (hourly 10)
unfolding program
hourly-IsContract = refl

abbrev first : Snapshot ℕ
first = record (hourly 10) { version = 1 }

publish_snapshot-refines_example :
    (st' : Store ℕ ℕ) × (publish_snapshot (hourly 10) start ≡ ok (next (hourly 10) empty_log, st'))
    × Represents st' (add (next (hourly 10) empty_log) empty_log)
    × (st'.snapshot_history_retention ≡ start.snapshot_history_retention)
    × (st'.order_block_trackers ≡ start.order_block_trackers)
    × (st'.order_block_tracker_versions ≡ start.order_block_tracker_versions)
publish_snapshot-refines_example =
    publish_snapshot-refines (hourly 10) start empty_log start-Represents hourly-IsContract

run-Represents_example : Represents (run calls (new_store 1)) (note_all calls empty_log)
run-Represents_example = run-Represents 1 calls

get_snapshot_version-refines_example :
    get_snapshot_version "EUR_USD" "H1" 2 (run calls (new_store 1))
    ≡ pinned 1 2 (note_all calls empty_log ("EUR_USD", "H1"))
unfolding program
get_snapshot_version-refines_example =
    get_snapshot_version-refines "EUR_USD" "H1" 2 (run calls (new_store 1))
      (note_all calls empty_log) (run-Represents 1 calls)

refused : publish_snapshot (record (hourly 5) { timeframe = "H7" }) start ≡ raise Error.value_error
unfolding program
refused = refl

abbrev one : Store ℕ ℕ
one = record start {
  latest_snapshots = (("EUR_USD", "H1"), first) ∷ [];
  snapshot_history = (("EUR_USD", "H1"), (1, first) ∷ []) ∷ [];
  snapshot_versions = (("EUR_USD", "H1"), 1) ∷ [];
}

abbrev early : List (Call ℕ ℕ)
early = Call.publish (hourly 10) ∷ []

abbrev later : List (Call ℕ ℕ)
later = Call.publish (hourly 20) ∷ Call.publish_tracker (tracker 1) ∷ []

get_snapshot_version-stable_example : first ≡ first
unfolding program
get_snapshot_version-stable_example =
    get_snapshot_version-stable later (run early (new_store 1)) (note_all early empty_log) "EUR_USD"
      "H1" 1 first first (run-Represents 1 early) refl refl

abbrev based : Tracker ℕ
based = record (tracker 1) { records = record block { source_snapshot_version = 1 } ∷ [] }

abbrev published : Tracker ℕ
published = record based { tracker_version = 1 }

abbrev tracked : Store ℕ ℕ
tracked = record one {
  order_block_trackers = ("EUR_USD", published) ∷ [];
  order_block_tracker_versions = ("EUR_USD", 1) ∷ [];
}

publish_order_block_tracker-grounded_example :
    (published.tracker_version ≡ lookup_or based.instrument 0 one.order_block_tracker_versions + 1)
    × (get_order_block_tracker "EUR_USD" tracked ≡ some published)
    × (tracked.snapshot_history ≡ one.snapshot_history)
    × (tracked.latest_snapshots ≡ one.latest_snapshots)
    × (tracked.snapshot_versions ≡ one.snapshot_versions)
    × All
        (λ (r : OrderBlockRecord ℕ). IsPinned "EUR_USD" one r.timeframe r.source_snapshot_version)
        published.records
unfolding program
publish_order_block_tracker-grounded_example =
    publish_order_block_tracker-grounded based published one tracked refl

publish_order_block_tracker-unpinned_example :
    publish_order_block_tracker (tracker 2) one ≡ raise Error.key_error
unfolding program
publish_order_block_tracker-unpinned_example =
    publish_order_block_tracker-unpinned (tracker 2) one 0 "H1" 2 refl refl

assemble-eq-publish_example :
    assemble_order_block_tracker "EUR_USD" (block ∷ []) (("H1", 3) ∷ []) 0 one
    ≡ publish_order_block_tracker (tracker 3) one
assemble-eq-publish_example = assemble-eq-publish "EUR_USD" (block ∷ []) (("H1", 3) ∷ []) 0 one
