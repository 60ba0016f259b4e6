-- ===== src/MarketState/Runs.antt =====
-- Any sequence of calls, refused ones included.
use oanda_v.Prelude.{
  ℕ, suc, ◌+◌, ◌-◌, ◌≡◌, String, List, [], ◌∷◌, ◌++◌, nat_key, string_key, pair_key, ◌==◌, leb,
  length, get_elem?, some, refl, Result, ok, raise, Error, inl, inr, sym, ◌∙◌, Bool-cases, zero,
}
use oanda_v.Prelude.Results.{Result-cases}
use oanda_v.Prelude.Dict.{Dict}
use oanda_v.CandlePolicy.{Time}
use oanda_v.Contracts.Snapshot.{Snapshot, validate_snapshot, validate_snapshot-version}
use oanda_v.Contracts.Tracker.{OrderBlockRecord, Tracker}
use oanda_v.MarketState.{
  SnapshotKey, Store, new_store, snapshot_key, publish_snapshot, stamp_snapshot_version,
  publish_order_block_tracker, assemble_order_block_tracker, get_snapshot_version,
}
use oanda_v.MarketState.Log.{
  empty_log, new_store-Represents, SnapshotLog, add, next, pinned, Represents,
}
use oanda_v.MarketState.Publish.{publish_snapshot-refines, get_snapshot_version-refines}
use oanda_v.MarketState.Trackers.{publish_order_block_tracker-ok, assemble-eq-publish}

-- A call of the store that may change it; `now` is what the clock then reads.
pub data Call (A R : Type 0) : Type 0 where
  publish : Snapshot A → Call A R
  publish_tracker : Tracker R → Call A R
  assemble : String → List (OrderBlockRecord R) → Dict String ℕ → Time → Call A R

module _ {A R : Type 0} where
  -- What a call leaves behind: a call that raises has changed nothing.
  abbrev pub settle : {V : Type 0} → Result (V × Store A R) → Store A R → Store A R
  settle (ok (_, st')) st = st'
  settle (raise _) st = st

  unfoldable pub step : Call A R → Store A R → Store A R
  step (publish s) st = settle (publish_snapshot s st) st
  step (publish_tracker t) st = settle (publish_order_block_tracker t st) st
  step (assemble i rs vs now) st = settle (assemble_order_block_tracker i rs vs now st) st

  unfoldable pub run : List (Call A R) → Store A R → Store A R
  run [] st = st
  run (c ∷ calls) st = run calls (step c st)

module _ {A R : Type 0} where
  -- A snapshot that breaks its contract is refused, with the error of its validation.
  pub publish_raises :
      (s : Snapshot A) (st : Store A R) (e : Error)
      → validate_snapshot s ≡ raise e
      → publish_snapshot s st ≡ raise e
  unfolding publish_snapshot stamp_snapshot_version
  publish_raises s st e bad = rw (validate_snapshot-version, bad)

module _ {A : Type 0} where
  abbrev pub note_publish : Result (Unit {0}) → Snapshot A → SnapshotLog A → SnapshotLog A
  note_publish (ok _) s log = add (next s log) log
  note_publish (raise _) s log = log

module _ {A R : Type 0} where
  -- The log after a call: a valid snapshot that is published joins it.
  unfoldable pub note : Call A R → SnapshotLog A → SnapshotLog A
  note (publish s) log = note_publish (validate_snapshot s) s log
  note (publish_tracker _) log = log
  note (assemble _ _ _ _) log = log

  unfoldable pub note_all : List (Call A R) → SnapshotLog A → SnapshotLog A
  note_all [] log = log
  note_all (c ∷ calls) log = note_all calls (note c log)

  -- The store holds the log, under a given retention.
  abbrev pub Keeps : ℕ → Store A R → SnapshotLog A → Type 0
  Keeps retention st log = Represents st log × (st.snapshot_history_retention ≡ retention)

  tracker-Keeps :
      (n : ℕ) (t : Tracker R) (st : Store A R) (log : SnapshotLog A)
      → Keeps n st log
      → Keeps n (settle (publish_order_block_tracker t st) st) log
  tracker-Keeps n t st log h = elim (Result-cases (publish_order_block_tracker t st)) [
    | inl ((p, st'), e) ↦
        let (_, _, _, state) = publish_order_block_tracker-ok t p st st' e in
        rw (e, state)
          (
            record {
              versions = h.0.versions;
              latest = h.0.latest;
              history = h.0.history;
              stamped = h.0.stamped;
            },
            h.1,
          )
    | inr (x, e) ↦ rw e h
  ]

  publish-Keeps :
      (n : ℕ) (s : Snapshot A) (st : Store A R) (log : SnapshotLog A)
      → Keeps n st log
      → Keeps n (settle (publish_snapshot s st) st) (note_publish (validate_snapshot s) s log)
  publish-Keeps n s st log h = elim (Result-cases (validate_snapshot s)) [
    | inl (u, valid) ↦
        let (st', e, rep, same, _, _) = publish_snapshot-refines s st log h.0 valid in
        rw (e, valid) (rep, same ∙ h.1)
    | inr (x, bad) ↦ rw (bad, publish_raises s st x bad) h
  ]

  pub step-Keeps :
      (n : ℕ) (c : Call A R) (st : Store A R) (log : SnapshotLog A)
      → Keeps n st log
      → Keeps n (step c st) (note c log)
  unfolding step note
  step-Keeps n (publish s) st log h = publish-Keeps n s st log h
  step-Keeps n (publish_tracker t) st log h = tracker-Keeps n t st log h
  step-Keeps n (assemble i rs vs now) st log h =
      rw (assemble-eq-publish i rs vs now st) (tracker-Keeps n _ st log h)

  -- Whatever the calls, the store keeps the log of what was published.
  pub run-Keeps :
      (n : ℕ) (calls : List (Call A R)) (st : Store A R) (log : SnapshotLog A)
      → Keeps n st log
      → Keeps n (run calls st) (note_all calls log)
  unfolding run note_all
  run-Keeps n [] st log h = h
  run-Keeps n (c ∷ calls) st log h =
      run-Keeps n calls (step c st) (note c log) (step-Keeps n c st log h)

module _ {A : Type 0} where
  get_elem?-append_left :
      (i : ℕ) (xs ys : List (Snapshot A)) {s : Snapshot A}
      → get_elem? xs i ≡ some s
      → get_elem? (xs ++ ys) i ≡ some s
  get_elem?-append_left i [] ys h = cc
  get_elem?-append_left zero (x ∷ xs) ys h = h
  get_elem?-append_left (suc i) (x ∷ xs) ys h = get_elem?-append_left i xs ys h

  pinned-get_elem? :
      (n w : ℕ) (published : List (Snapshot A)) (x : Snapshot A)
      → pinned n w published ≡ some x
      → get_elem? published (w - 1) ≡ some x
  pinned-get_elem? n w published x h =
      elim (Bool-cases (leb (suc (length published - (n + 1))) w)) [
        | inl t ↦ rw t at h
        | inr f ↦ cc (rw f at h)
      ]

  add-keeps :
      (s : Snapshot A) (log : SnapshotLog A) (key : SnapshotKey) (i : ℕ) {x : Snapshot A}
      → get_elem? (log key) i ≡ some x
      → get_elem? (add s log key) i ≡ some x
  add-keeps s log key i h = elim (Bool-cases (snapshot_key s == key)) [
    | inl t ↦ rw t (get_elem?-append_left i (log key) (s ∷ []) h)
    | inr f ↦ rw f h
  ]

module _ {A R : Type 0} where
  note-keeps :
      (c : Call A R) (log : SnapshotLog A) (key : SnapshotKey) (i : ℕ) {x : Snapshot A}
      → get_elem? (log key) i ≡ some x
      → get_elem? (note c log key) i ≡ some x
  unfolding note
  note-keeps (publish s) log key i h = elim (Result-cases (validate_snapshot s)) [
    | inl (u, e) ↦ rw e (add-keeps (next s log) log key i h)
    | inr (x, e) ↦ rw e h
  ]
  note-keeps (publish_tracker t) log key i h = h
  note-keeps (assemble _ _ _ _) log key i h = h

  note_all-keeps :
      (calls : List (Call A R)) (log : SnapshotLog A) (key : SnapshotKey) (i : ℕ) {x : Snapshot A}
      → get_elem? (log key) i ≡ some x
      → get_elem? (note_all calls log key) i ≡ some x
  unfolding note_all
  note_all-keeps [] log key i h = h
  note_all-keeps (c ∷ calls) log key i h =
      note_all-keeps calls (note c log) key i (note-keeps c log key i h)

  -- Whatever calls are made on a new store, refused ones included, it keeps the log of the valid
  -- snapshots that were published.
  pub run-Represents :
      (retention : ℕ) (calls : List (Call A R))
      → Represents (run calls (new_store retention)) (note_all calls empty_log)
  unfolding new_store
  run-Represents n calls =
      (run-Keeps n calls (new_store n) empty_log (new_store-Represents n, refl)).0

  -- A version that can be read never reads differently later: after any further calls it is the
  -- same snapshot, or it has left the history.
  pub get_snapshot_version-stable :
      (calls : List (Call A R)) (st : Store A R) (log : SnapshotLog A)
      (instrument timeframe : String) (version : ℕ) (x y : Snapshot A)
      → Represents st log
      → get_snapshot_version instrument timeframe version st ≡ some x
      → get_snapshot_version instrument timeframe version (run calls st) ≡ some y
      → x ≡ y
  get_snapshot_version-stable calls st log i t w x y rep hx hy =
      let key : SnapshotKey = (i, t) in
      let later = (run-Keeps st.snapshot_history_retention calls st log (rep, refl)).0 in
      let at_x =
        pinned-get_elem? st.snapshot_history_retention w (log key) x
          (sym (get_snapshot_version-refines i t w st log rep) ∙ hx) in
      let at_y =
        pinned-get_elem? (run calls st).snapshot_history_retention w (note_all calls log key) y (
          sym (get_snapshot_version-refines i t w (run calls st) (note_all calls log) later)
          ∙ hy) in
      cc (note_all-keeps calls log key (w - 1) at_x)
