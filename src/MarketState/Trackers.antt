-- ===== src/MarketState/Trackers.antt =====
-- Order-block trackers are built on pinned snapshots only.
use oanda_v.Prelude.{
  ℕ, suc, ◌+◌, ◌≡◌, ◌≢◌, String, none, List, [], ◌∷◌, nat_key, string_key, some, get_elem?, ok,
  raise, Error, arith, All, zero, sym, ap, ◌∙◌,
}
use oanda_v.Prelude.Dict.{Dict, lookup, lookup_or, insert, lookup-insert_self}
use oanda_v.CandlePolicy.{Time}
use oanda_v.Contracts.Tracker.{
  OrderBlockRecord, Tracker, validate_tracker, validate_record, validate_records,
}
use oanda_v.MarketState.{
  Store, publish_order_block_tracker, stamp_tracker_version, get_order_block_tracker,
  get_snapshot_version, check_pinned, assemble_order_block_tracker,
}

module _ {R : Type 0} where
  validate_records-lookup :
      (instrument : String) (versions : Dict String ℕ) (seen : List String)
      (records : List (OrderBlockRecord R))
      → validate_records instrument versions seen records ≡ ok tt
      → All
          (λ (r : OrderBlockRecord R). lookup r.timeframe versions ≡ some r.source_snapshot_version)
          records
  unfolding validate_records validate_record
  validate_records-lookup i versions seen [] h = tt
  validate_records-lookup i versions seen (r ∷ rs) h =
      ground (arith, validate_records-lookup i versions (r.id ∷ seen) rs)

module _ {A R : Type 0} where
  abbrev pub IsPinned : String → Store A R → String → ℕ → Type 0
  IsPinned instrument st timeframe version =
      get_snapshot_version instrument timeframe version st ≢ none

  check_pinned-lookup :
      (instrument timeframe : String) (version : ℕ) (versions : Dict String ℕ) (st : Store A R)
      → check_pinned instrument versions st ≡ ok tt
      → lookup timeframe versions ≡ some version
      → IsPinned instrument st timeframe version
  unfolding check_pinned lookup
  check_pinned-lookup i t w [] st h e = cc
  check_pinned-lookup i t w ((u, v) ∷ rest) st h e =
      ground (arith, string_key.test_iff u t, check_pinned-lookup i t w rest st)

  check_pinned-missing :
      (instrument timeframe : String) (version i : ℕ) (versions : Dict String ℕ) (st : Store A R)
      → get_elem? versions i ≡ some (timeframe, version)
      → get_snapshot_version instrument timeframe version st ≡ none
      → check_pinned instrument versions st ≡ raise Error.key_error
  unfolding check_pinned
  check_pinned-missing n t w i [] st h e = cc
  check_pinned-missing n t w zero ((u, v) ∷ rest) st h e = ground arith
  check_pinned-missing n t w (suc i) ((u, v) ∷ rest) st h e =
      ground (arith, check_pinned-missing n t w i rest st)

  -- A tracker that names a snapshot version which is not pinned is refused with a KeyError.
  pub publish_order_block_tracker-unpinned :
      (t : Tracker R) (st : Store A R) (i : ℕ) (timeframe : String) (version : ℕ)
      → get_elem? t.source_snapshot_versions i ≡ some (timeframe, version)
      → get_snapshot_version t.instrument timeframe version st ≡ none
      → publish_order_block_tracker t st ≡ raise Error.key_error
  unfolding publish_order_block_tracker
  publish_order_block_tracker-unpinned t st i timeframe version h missing = rw (
      check_pinned-missing t.instrument timeframe version i t.source_snapshot_versions st h missing)

  -- Assembling a tracker is building it and publishing it: the checks that it makes first decide
  -- nothing that the publication does not decide again.
  pub assemble-eq-publish :
      (instrument : String) (records : List (OrderBlockRecord R)) (versions : Dict String ℕ)
      (now : Time) (st : Store A R)
      → assemble_order_block_tracker instrument records versions now st
        ≡ publish_order_block_tracker
            (record {
              instrument = instrument;
              tracker_version = 0;
              created_at = now;
              records = records;
              source_snapshot_versions = versions;
            })
            st
  unfolding assemble_order_block_tracker publish_order_block_tracker stamp_tracker_version
      validate_tracker
  assemble-eq-publish instrument records versions now st = ground arith

  -- The tracker after an accepted publication, and what the checks have established.
  pub publish_order_block_tracker-ok :
      (t p : Tracker R) (st st' : Store A R)
      → publish_order_block_tracker t st ≡ ok (p, st')
      → (p ≡ record t {
        tracker_version = lookup_or t.instrument 0 st.order_block_tracker_versions + 1;
      })
        × (check_pinned t.instrument t.source_snapshot_versions st ≡ ok tt)
        × (validate_records t.instrument t.source_snapshot_versions [] t.records ≡ ok tt)
        × (st' ≡ record st {
          order_block_trackers = insert p.instrument p st.order_block_trackers;
          order_block_tracker_versions =
              insert p.instrument p.tracker_version st.order_block_tracker_versions;
        })
  unfolding publish_order_block_tracker stamp_tracker_version validate_tracker
  publish_order_block_tracker-ok t p st st' h = ground arith

  All-IsPinned :
      (instrument : String) (versions : Dict String ℕ) (st : Store A R)
      (records : List (OrderBlockRecord R))
      → check_pinned instrument versions st ≡ ok tt
      → All
          (λ (r : OrderBlockRecord R). lookup r.timeframe versions ≡ some r.source_snapshot_version)
          records
      → All
          (λ (r : OrderBlockRecord R). IsPinned instrument st r.timeframe r.source_snapshot_version)
          records
  All-IsPinned i versions st [] c h = tt
  All-IsPinned i versions st (r ∷ rs) c (h, hs) = (
    check_pinned-lookup i r.timeframe r.source_snapshot_version versions st c h,
    All-IsPinned i versions st rs c hs,
  )

  -- An accepted tracker comes back under the next version of its instrument and is the one read
  -- from then on, no snapshot changes, and each of its records names a snapshot that is pinned.
  pub publish_order_block_tracker-grounded :
      (t p : Tracker R) (st st' : Store A R)
      → publish_order_block_tracker t st ≡ ok (p, st')
      → (p.tracker_version ≡ lookup_or t.instrument 0 st.order_block_tracker_versions + 1)
        × (get_order_block_tracker t.instrument st' ≡ some p)
        × (st'.snapshot_history ≡ st.snapshot_history)
        × (st'.latest_snapshots ≡ st.latest_snapshots)
        × (st'.snapshot_versions ≡ st.snapshot_versions)
        × All
            (λ (r : OrderBlockRecord R).
              IsPinned t.instrument st r.timeframe r.source_snapshot_version)
            p.records
  unfolding get_order_block_tracker
  publish_order_block_tracker-grounded t p st st' h =
      let (stamped, checked, recorded, state) = publish_order_block_tracker-ok t p st st' h in
      (
        ap (λ (x : Tracker R). x.tracker_version) stamped,
        ap (λ (x : Store A R). lookup t.instrument x.order_block_trackers) state
            ∙ ap (λ k. lookup k (insert p.instrument p st.order_block_trackers))
                (sym (ap (λ (x : Tracker R). x.instrument) stamped))
            ∙ lookup-insert_self p.instrument p st.order_block_trackers,
        ap (λ (x : Store A R). x.snapshot_history) state,
        ap (λ (x : Store A R). x.latest_snapshots) state,
        ap (λ (x : Store A R). x.snapshot_versions) state,
        rw stamped (
            All-IsPinned t.instrument t.source_snapshot_versions st t.records checked (
              validate_records-lookup t.instrument t.source_snapshot_versions [] t.records
                recorded)),
      )
