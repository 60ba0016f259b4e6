-- ===== src/HistorySync/Tests.antt =====
-- A broker with three transactions, of which the store has the first one.
use oanda_v.Prelude.{
  ◌⊎◌, ℕ, test_cases, inl, inr, subst, ◌≡◌, ◌*◌, refl, String, some, List, [], ◌∷◌, nat_key,
  string_key, ◌==◌, if◌then◌else◌, Result, ok, raise, Error, Any, arith,
}
use oanda_v.Prelude.Dict.{lookup, insert}
use oanda_v.CandlePolicy.{Time, hours}
use oanda_v.History.{split_utc_window}
use oanda_v.HistorySync.{
  SyncReport, HistoryStore, HistorySources, upsert_found, upsert_from, upsert_rows, after_repair,
  after_projection, store_normalized, store_transactions, finish_sync, sync_since, initialize,
  sync_from, incremental_sync, newest_id, advance_from, advance_watermark, after_chunk,
  backfill_fetched, backfill_chunks, chunks_of, backfill_history,
}
use oanda_v.HistorySync.Rows.{upsert_rows-Stores}
use oanda_v.HistorySync.Watermark.{IsSynced, IsComplete, incremental_sync-IsSynced}
use oanda_v.HistorySync.Backfill.{fetch_all, backfill_history-Stores}
use oanda_v.HistorySync.Gap.{backfill_history-gap}

program : Unit {0}
unfolding lookup insert split_utc_window upsert_found upsert_from after_repair after_projection
    store_normalized store_transactions finish_sync sync_since initialize sync_from newest_id
    advance_from advance_watermark after_chunk backfill_fetched backfill_chunks backfill_history
program = tt

abbrev ledger : List (ℕ × String)
ledger = (1, "fill") ∷ (2, "financing") ∷ (3, "fill") ∷ []

abbrev after_first : ℕ → Result (List (ℕ × String) × ℕ)
after_first last =
    if last == 1 then ok ((2, "financing") ∷ (3, "fill") ∷ [], 3) else raise Error.fetch_error

-- The only window that has a transaction begins at midnight of day 5.
abbrev in_window : Time → Time → Result (List (ℕ × String))
in_window start end = ok (if start == 5 * hours 24 then (3, "fill") ∷ [] else [])

abbrev sources : HistorySources String String
sources = record {
  get_account_details = ok (some 1);
  fetch_transactions_since = after_first;
  fetch_transactions_for_window = in_window;
  normalize_transactions = λ transactions. ok [];
  project_trade_records = λ events table trades. (trades, ok 0);
  repair_manual_mit_closes = λ table trades. (trades, ok 0);
  midnight = λ day. day * hours 24;
  now = 6 * hours 24;
}

abbrev store : HistoryStore String String
store = record {
  raw_transactions = (1, "fill") ∷ [];
  trade_history_events = [];
  trades = [];
  sync_state = some record { last_transaction_id = 1; last_sync_utc = 0 };
}

abbrev backfilled : HistoryStore String String
backfilled = record {
  raw_transactions = (1, "fill") ∷ (3, "fill") ∷ [];
  trade_history_events = [];
  trades = [];
  sync_state = some record { last_transaction_id = 3; last_sync_utc = 6 * hours 24 };
}

abbrev report : SyncReport
report = record {
  raw = record { seen = 1; inserted = 1; updated = 0 };
  events = record { seen = 0; inserted = 0; updated = 0 };
  projected_trades = 0;
}

store-IsSynced : IsSynced ledger 0 store
unfolding lookup
store-IsSynced state h =
    let e : state.last_transaction_id ≡ 1 = cc in
    (
      (λ above below. ("fill", refl)),
      (
        (λ above below. absurd (omega (arith, below, e))),
        ((λ above below. absurd (omega (arith, below, e))), tt),
      ),
    )

sources-IsComplete : IsComplete ledger sources
sources-IsComplete last newest transactions h = elim (test_cases last 1) [
  | inl (t, p) ↦
      let h' = rw t at h in
      let e : (2, "financing") ∷ (3, "fill") ∷ [] ≡ transactions = cc in
      (
        (λ above below. absurd (omega (arith, p))),
        (
          (λ above below. subst (Any (λ (y : ℕ × String). y.0 ≡ 2)) e (Any.here refl)),
          (
            (λ above below.
                subst (Any (λ (y : ℕ × String). y.0 ≡ 3)) e (Any.there (Any.here refl))),
            tt,
          ),
        ),
      )
  | inr (t, _) ↦ let h' = rw t at h in absurd (cc)
]

incremental_sync-IsSynced_example :
    IsSynced ledger 0 (incremental_sync sources store).0
    × (((r : SyncReport) × ((incremental_sync sources store).1 ≡ ok r))
        ⊎ ((incremental_sync sources store).0.sync_state
            ≡ some record { last_transaction_id = 1; last_sync_utc = 0 }))
incremental_sync-IsSynced_example =
    incremental_sync-IsSynced sources ledger 0 store
      (record { last_transaction_id = 1; last_sync_utc = 0 }) sources-IsComplete refl store-IsSynced

run : backfill_history sources 5 5 store ≡ (backfilled, ok report)
unfolding program
run = refl

backfill_history-Stores_example :
    (all : List (ℕ × String)) × (fetch_all sources (chunks_of sources 5 5) ≡ ok all)
    × ((k : ℕ)
        → lookup k backfilled.raw_transactions
          ≡ lookup k (upsert_rows all store.raw_transactions).1)
    × (some 3 ≡ newest_id (some 1) all)
backfill_history-Stores_example = backfill_history-Stores sources 5 5 report store backfilled run

backfill_history-gap_example : ¬ IsSynced ledger 0 backfilled
unfolding program
backfill_history-gap_example =
    backfill_history-gap sources ledger 0 2 3 5 5 "financing" report ((3, "fill") ∷ []) store
      backfilled run refl (Any.there (Any.here refl)) refl (refl, tt) refl (omega arith)
      (omega arith)

upsert_rows-Stores_example :
    upsert_rows {K = ℕ} {C = String} ((2, "b") ∷ (1, "c") ∷ []) ((1, "c") ∷ (2, "b") ∷ [])
    ≡ (record { seen = 2; inserted = 0; updated = 0 }, (1, "c") ∷ (2, "b") ∷ [])
unfolding program
upsert_rows-Stores_example =
    (upsert_rows-Stores {K = ℕ} {C = String} ((2, "b") ∷ (1, "c") ∷ []) ((1, "a") ∷ [])
      ((refl, tt), (tt, tt))).3
