-- ===== src/MarketState/Publish.antt =====
-- The store refines the log: publishing appends, and the reads see what the log says.
use oanda_v.Prelude.{
  ℕ, suc, ◌+◌, ◌≡◌, ◌⊎◌, zero, length-append, String, List, [], ◌∷◌, ◌++◌, nat_key, string_key,
  pair_key, length, last?, get_elem?, some, refl, ok, arith, inl, inr, test_cases, Option-cases,
  last?-append, sym, ◌∙◌, ap,
}
use oanda_v.Prelude.Dict.{lookup, lookup_or, insert, lookup-insert, lookup_or-insert}
use oanda_v.Contracts.Snapshot.{Snapshot, IsContract, validate_snapshot-version}
use oanda_v.MarketState.{
  SnapshotKey, Store, snapshot_key, history_of, publish_snapshot, stamp_snapshot_version,
  get_snapshot_version, evict,
}
use oanda_v.MarketState.History.{window, window-push, lookup-window}
use oanda_v.MarketState.Log.{SnapshotLog, add, next, pinned, IsStamped, Represents}

module _ {A : Type 0} where
  get_elem?-append :
      (i : ℕ) (xs : List (Snapshot A)) (x s : Snapshot A)
      → get_elem? (xs ++ x ∷ []) i ≡ some s
      → (get_elem? xs i ≡ some s) ⊎ ((i ≡ length xs) × (x ≡ s))
  get_elem?-append zero [] x s h = inr (refl, cc)
  get_elem?-append (suc i) [] x s h = cc
  get_elem?-append zero (y ∷ xs) x s h = inl h
  get_elem?-append (suc i) (y ∷ xs) x s h = ground (arith, get_elem?-append i xs x s h)

  add-IsStamped :
      (s : Snapshot A) (log : SnapshotLog A) → IsStamped log → IsStamped (add (next s log) log)
  add-IsStamped s log old key i x h = elim (test_cases (snapshot_key s) key) [
    | inl (t, e) ↦ elim (get_elem?-append i (log key) (next s log) x (rw t at h)) [
      | inl before ↦ old key i x before
      | inr (last, same) ↦ (
        ap (λ (y : Snapshot A). y.version) (sym same) ∙ omega (arith, ap (λ k. length (log k)) e),
        ap (λ (y : Snapshot A). snapshot_key y) (sym same) ∙ e,
      )
    ]
    | inr (f, _) ↦ old key i x (rw f at h)
  ]

module _ {A R : Type 0} where
  -- The state after a publication that was accepted.
  pub after_publish : Snapshot A → SnapshotLog A → Store A R → Store A R
  after_publish s log st =
      let key = snapshot_key s in
      let p = next s log in
      record st {
        latest_snapshots = insert key p st.latest_snapshots;
        snapshot_history =
            insert key
              (evict (st.snapshot_history_retention + 1) (insert p.version p (history_of key st)))
              st.snapshot_history;
        snapshot_versions = insert key p.version st.snapshot_versions;
      }

  publish-after_publish :
      (s : Snapshot A) (st : Store A R) (log : SnapshotLog A)
      → Represents st log
      → IsContract s
      → publish_snapshot s st ≡ ok (next s log, after_publish s log st)
  unfolding publish_snapshot stamp_snapshot_version after_publish
  publish-after_publish s st log rep valid =
      rw (rep.versions (snapshot_key s), validate_snapshot-version, valid)

  module _ (s : Snapshot A) (st : Store A R) (log : SnapshotLog A) (rep : Represents st log) where
    abbrev p : Snapshot A
    p = next s log

    after_versions :
        (key : SnapshotKey)
        → lookup_or key 0 (after_publish s log st).snapshot_versions ≡ length (add p log key)
    unfolding after_publish
    after_versions key = rw lookup_or-insert (elim (test_cases (snapshot_key s) key) [
      | inl (t, e) ↦
          rw t (omega (arith, length-append (log key) (p ∷ []), ap (λ k. length (log k)) e))
      | inr (f, _) ↦ rw f (rep.versions key)
    ])

    after_latest :
        (key : SnapshotKey)
        → lookup key (after_publish s log st).latest_snapshots ≡ last? (add p log key)
    unfolding after_publish
    after_latest key = rw lookup-insert (elim (test_cases (snapshot_key s) key) [
      | inl (t, _) ↦ rw t (sym (last?-append (log key) p))
      | inr (f, _) ↦ rw f (rep.latest key)
    ])

    after_history :
        (key : SnapshotKey)
        → history_of key (after_publish s log st)
          ≡ window (st.snapshot_history_retention + 1) (add p log key)
    unfolding after_publish
    after_history key = rw lookup_or-insert (elim (test_cases (snapshot_key s) key) [
      | inl (t, e) ↦
          rw (t, rep.history (snapshot_key s), window-push)
            (ap (λ k. window (st.snapshot_history_retention + 1) (log k ++ p ∷ [])) e)
      | inr (f, _) ↦ rw f (rep.history key)
    ])

  after_publish-Represents :
      (s : Snapshot A) (st : Store A R) (log : SnapshotLog A)
      → Represents st log
      → Represents (after_publish s log st) (add (next s log) log)
  unfolding after_publish
  after_publish-Represents s st log rep = record {
    versions = after_versions s st log rep;
    latest = after_latest s st log rep;
    history = after_history s st log rep;
    stamped = add-IsStamped s log rep.stamped;
  }

  -- Publishing a valid snapshot succeeds. The snapshot comes back under the next version of its
  -- key, the new state represents the log with it at the end, and no tracker changes.
  pub publish_snapshot-refines :
      (s : Snapshot A) (st : Store A R) (log : SnapshotLog A)
      → Represents st log
      → IsContract s
      → (st' : Store A R) × (publish_snapshot s st ≡ ok (next s log, st'))
        × Represents st' (add (next s log) log)
        × (st'.snapshot_history_retention ≡ st.snapshot_history_retention)
        × (st'.order_block_trackers ≡ st.order_block_trackers)
        × (st'.order_block_tracker_versions ≡ st.order_block_tracker_versions)
  unfolding after_publish
  publish_snapshot-refines s st log rep valid = (
    after_publish s log st,
    publish-after_publish s st log rep valid,
    after_publish-Represents s st log rep,
    refl,
    refl,
    refl,
  )

  get_snapshot_version-history :
      (instrument timeframe : String) (w : ℕ) (st : Store A R)
      → get_snapshot_version instrument timeframe w st
        ≡ lookup w (history_of (instrument, timeframe) st)
  unfolding get_snapshot_version lookup
  get_snapshot_version-history instrument timeframe w st =
      elim (Option-cases (lookup (instrument, timeframe) st.snapshot_history)) [
        | inl e ↦ rw (e, get_snapshot_version)
        | inr (h, e) ↦ rw (e, get_snapshot_version)
      ]

  -- `get_snapshot_version` finds exactly the versions that are still pinned, and for each the
  -- snapshot that was published under it.
  pub get_snapshot_version-refines :
      (instrument timeframe : String) (version : ℕ) (st : Store A R) (log : SnapshotLog A)
      → Represents st log
      → get_snapshot_version instrument timeframe version st
        ≡ pinned st.snapshot_history_retention version (log (instrument, timeframe))
  get_snapshot_version-refines instrument timeframe version st log rep =
      rw (get_snapshot_version-history, rep.history (instrument, timeframe))
        (lookup-window (st.snapshot_history_retention + 1) version (log (instrument, timeframe)))
