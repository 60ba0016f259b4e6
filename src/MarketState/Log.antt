-- ===== src/MarketState/Log.antt =====
-- What the state store promises: every snapshot ever published stays on an append-only log for its
-- key. The store keeps a bounded part of that log.
use oanda_v.Prelude.{
  ℕ, suc, ◌+◌, ◌-◌, ◌≡◌, Option, none, List, [], ◌∷◌, ◌++◌, nat_key, string_key, pair_key, ◌==◌,
  leb, length, last?, get_elem?, some, if◌then◌else◌, refl, sym,
}
use oanda_v.Prelude.Dict.{lookup, lookup_or}
use oanda_v.Contracts.Snapshot.{Snapshot}
use oanda_v.MarketState.{SnapshotKey, Store, snapshot_key, history_of, new_store}
use oanda_v.MarketState.History.{window, window-nil}

abbrev pub SnapshotLog : Type 0 → Type 0
SnapshotLog A = SnapshotKey → List (Snapshot A)

module _ {A : Type 0} where
  abbrev pub empty_log : SnapshotLog A
  empty_log key = []

  abbrev pub add : Snapshot A → SnapshotLog A → SnapshotLog A
  add s log key = if snapshot_key s == key then log key ++ s ∷ [] else log key

  -- The next version of a snapshot, as the log numbers it.
  abbrev pub next : Snapshot A → SnapshotLog A → Snapshot A
  next s log = record s { version = length (log (snapshot_key s)) + 1 }

  -- A version that is still pinned, with a given retention: the latest one and `retention` more.
  abbrev pub pinned : ℕ → ℕ → List (Snapshot A) → Option (Snapshot A)
  pinned retention version published =
      if leb (suc (length published - (retention + 1))) version
      then get_elem? published (version - 1)
      else none

  -- Each entry of the log carries its place as its version, and the key it is filed under.
  abbrev pub IsStamped : SnapshotLog A → Type 0
  IsStamped log =
      (key : SnapshotKey) (i : ℕ) (s : Snapshot A)
      → get_elem? (log key) i ≡ some s
      → (s.version ≡ i + 1) × (snapshot_key s ≡ key)

  pub record Represents {R : Type 0} (st : Store A R) (log : SnapshotLog A) : Type 0 where
    pub versions : (key : SnapshotKey) → lookup_or key 0 st.snapshot_versions ≡ length (log key)
    pub latest : (key : SnapshotKey) → lookup key st.latest_snapshots ≡ last? (log key)
    pub history :
        (key : SnapshotKey)
        → history_of key st ≡ window (st.snapshot_history_retention + 1) (log key)
    pub stamped : IsStamped log

  pub new_store-Represents :
      {R : Type 0} (retention : ℕ) → Represents (new_store {A = A} {R = R} retention) empty_log
  unfolding new_store lookup
  new_store-Represents retention = record {
    versions = λ key. refl;
    latest = λ key. refl;
    history = λ key. sym (window-nil (retention + 1));
    stamped = λ key i s h. (cc);
  }
