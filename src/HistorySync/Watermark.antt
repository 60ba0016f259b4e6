-- ===== src/HistorySync/Watermark.antt =====
-- What the watermark of the trade history says of the stored transactions (`incremental_sync`,
-- journal/trade_history_service.py).
use oanda_v.Prelude.{
  ℕ, ◌⊎◌, ◌≤◌, ◌<◌, ◌≡◌, refl, sym, subst, ◌∙◌, String, Option, some, List, [], ◌∷◌, nat_key,
  string_key, Key, ◌==◌, test_self, leb, leb→le, leb_false→lt, Bool-cases, inl, inr, if◌then◌else◌,
  Result, ok, raise, Error, All, Any,
}
use oanda_v.Prelude.Dict.{lookup}
use oanda_v.Journal.{Trades}
use oanda_v.HistorySync.{
  Counts, SyncReport, HistoryStore, HistorySources, TradeHistorySyncState, upsert_rows,
  after_repair, after_projection, store_normalized, store_transactions, with_watermark, finish_sync,
  sync_since, sync_from, incremental_sync,
}
use oanda_v.HistorySync.Rows.{latest, lookup-upsert_rows}

module _ {C E : Type 0} ⦃content : Key C⦄ ⦃event : Key E⦄ where
  abbrev pub IsStored : ℕ → HistoryStore C E → Type 0
  IsStored k st = (c : C) × (lookup k st.raw_transactions ≡ some c)

  -- Of the transactions of the ledger after a first one, those up to the watermark are stored.
  abbrev pub IsSynced : List (ℕ × C) → ℕ → HistoryStore C E → Type 0
  IsSynced ledger base st =
      (state : TradeHistorySyncState)
      → st.sync_state ≡ some state
      → All (λ (x : ℕ × C). base < x.0 → x.0 ≤ state.last_transaction_id → IsStored x.0 st) ledger

  -- The broker's answer has the transactions of the ledger after the asked one, up to the one
  -- that it names.
  abbrev pub IsComplete : List (ℕ × C) → HistorySources C E → Type 0
  IsComplete ledger s =
      (last newest : ℕ) (transactions : List (ℕ × C))
      → s.fetch_transactions_since last ≡ ok (transactions, newest)
      → All (λ (x : ℕ × C). last < x.0 → x.0 ≤ newest → Any (λ (y : ℕ × C). y.0 ≡ x.0) transactions)
          ledger

  -- The raw transactions and the watermark are as they were.
  abbrev Keeps : HistoryStore C E → HistoryStore C E → Type 0
  Keeps st st' = (st'.raw_transactions ≡ st.raw_transactions) × (st'.sync_state ≡ st.sync_state)

  module _ (s : HistorySources C E) where
    after_repair-Keeps :
        (report : SyncReport) (st : HistoryStore C E) (p : Trades × Result ℕ)
        → Keeps st (after_repair s report st p).0
    unfolding after_repair
    after_repair-Keeps report st (trades, raise e) = (refl, refl)
    after_repair-Keeps report st (trades, ok n) = (refl, refl)

    after_projection-Keeps :
        (raw events : Counts) (st : HistoryStore C E) (p : Trades × Result ℕ)
        → Keeps st (after_projection s raw events st p).0
    unfolding after_projection
    after_projection-Keeps raw events st (trades, raise e) = (refl, refl)
    after_projection-Keeps raw events st (trades, ok n) =
        after_repair-Keeps _ (record st { trades = trades })
          (s.repair_manual_mit_closes st.trade_history_events trades)

    store_normalized-Keeps :
        (raw : Counts) (st : HistoryStore C E) (r : Result (List (String × E)))
        → Keeps st (store_normalized s raw st r).0
    unfolding store_normalized
    store_normalized-Keeps raw st (raise e) = (refl, refl)
    store_normalized-Keeps raw st (ok events) =
        let table = (upsert_rows events st.trade_history_events).1 in
        after_projection-Keeps raw _ (record st { trade_history_events = table })
          (s.project_trade_records events table st.trades)

    -- However it ends, storing transactions writes all of them, and leaves the watermark alone.
    pub store_transactions-raw :
        (transactions : List (ℕ × C)) (st : HistoryStore C E)
        → ((store_transactions s transactions st).0.raw_transactions
            ≡ (upsert_rows transactions st.raw_transactions).1)
          × ((store_transactions s transactions st).0.sync_state ≡ st.sync_state)
    unfolding store_transactions
    store_transactions-raw transactions st =
        store_normalized-Keeps (upsert_rows transactions st.raw_transactions).0
          (record st { raw_transactions = (upsert_rows transactions st.raw_transactions).1 })
          (s.normalize_transactions transactions)

    latest-some :
        (k : ℕ) (rows : List (ℕ × C)) (c : C) → (d : C) × (latest k rows (some c) ≡ some d)
    latest-some k [] c = (c, refl)
    latest-some k ((j, d) ∷ rows) c = elim (Bool-cases (j == k)) [
      | inl e ↦ rw e (latest-some k rows d)
      | inr e ↦ rw e (latest-some k rows c)
    ]

    latest-Any :
        (k : ℕ) (rows : List (ℕ × C)) (before : Option C)
        → Any (λ (y : ℕ × C). y.0 ≡ k) rows
        → (d : C) × (latest k rows before ≡ some d)
    latest-Any k [] before a = elim a [ ]
    latest-Any k ((j, d) ∷ rows) before (Any.here p) = rw (p, test_self k) (latest-some k rows d)
    latest-Any k ((j, d) ∷ rows) before (Any.there a) =
        latest-Any k rows (if j == k then some d else before) a

    IsStored-before :
        (k : ℕ) (transactions : List (ℕ × C)) (st : HistoryStore C E)
        → IsStored k st
        → IsStored k (store_transactions s transactions st).0
    IsStored-before k transactions st (c, h) =
        rw
          (
            (store_transactions-raw transactions st).0,
            lookup-upsert_rows k transactions st.raw_transactions,
            h,
          )
          (latest-some k transactions c)

    IsStored-now :
        (k : ℕ) (transactions : List (ℕ × C)) (st : HistoryStore C E)
        → Any (λ (y : ℕ × C). y.0 ≡ k) transactions
        → IsStored k (store_transactions s transactions st).0
    IsStored-now k transactions st a =
        rw
          (
            (store_transactions-raw transactions st).0,
            lookup-upsert_rows k transactions st.raw_transactions,
          )
          (latest-Any k transactions (lookup k st.raw_transactions) a)

    -- What a later watermark needs of a transaction.
    synced_at :
        (base last newest k : ℕ) (transactions : List (ℕ × C)) (st : HistoryStore C E)
        → (base < k → k ≤ last → IsStored k st)
        → (last < k → k ≤ newest → Any (λ (y : ℕ × C). y.0 ≡ k) transactions)
        → base < k
        → k ≤ newest
        → IsStored k (store_transactions s transactions st).0
    synced_at base last newest k transactions st old new above below =
        elim (Bool-cases (leb k last)) [
          | inl e ↦ IsStored-before k transactions st (old above (leb→le k last e))
          | inr e ↦ IsStored-now k transactions st (new (leb_false→lt k last e) below)
        ]

    All-zip :
        (base last newest : ℕ) (transactions ledger : List (ℕ × C)) (st : HistoryStore C E)
        → All (λ (x : ℕ × C). base < x.0 → x.0 ≤ last → IsStored x.0 st) ledger
        → All
            (λ (x : ℕ × C). last < x.0 → x.0 ≤ newest → Any (λ (y : ℕ × C). y.0 ≡ x.0) transactions)
            ledger
        → All
            (λ (x : ℕ × C).
              base < x.0 → x.0 ≤ newest → IsStored x.0 (store_transactions s transactions st).0)
            ledger
    All-zip base last newest transactions [] st h h' = tt
    All-zip base last newest transactions (x ∷ ledger) st (o, h) (n, h') = (
      synced_at base last newest x.0 transactions st o n,
      All-zip base last newest transactions ledger st h h',
    )

    All-IsStored :
        (base last : ℕ) (transactions ledger : List (ℕ × C)) (st : HistoryStore C E)
        → All (λ (x : ℕ × C). base < x.0 → x.0 ≤ last → IsStored x.0 st) ledger
        → All
            (λ (x : ℕ × C).
              base < x.0 → x.0 ≤ last → IsStored x.0 (store_transactions s transactions st).0)
            ledger
    All-IsStored base last transactions [] st h = tt
    All-IsStored base last transactions (x ∷ ledger) st (o, h) = (
      (λ above below. IsStored-before x.0 transactions st (o above below)),
      All-IsStored base last transactions ledger st h,
    )

    finish_sync-cases :
        (newest : ℕ) (p : HistoryStore C E × Result SyncReport)
        → ((e : Error) × (finish_sync s newest p ≡ (p.0, raise e)))
          ⊎ ((report : SyncReport) × (finish_sync s newest p
                ≡ (with_watermark s newest p.0, ok report)))
    unfolding finish_sync
    finish_sync-cases newest (st, raise e) = inl (e, refl)
    finish_sync-cases newest (st, ok report) = inr (report, refl)

    abbrev Kept :
        List (ℕ × C) → ℕ → TradeHistorySyncState → HistoryStore C E × Result SyncReport → Type 0
    Kept ledger base state p =
        IsSynced ledger base p.0
        × (((report : SyncReport) × (p.1 ≡ ok report)) ⊎ (p.0.sync_state ≡ some state))

    fetched-Kept :
        (ledger : List (ℕ × C)) (base : ℕ) (st : HistoryStore C E) (state : TradeHistorySyncState)
        (r : Result (List (ℕ × C) × ℕ))
        → IsComplete ledger s
        → st.sync_state ≡ some state
        → IsSynced ledger base st
        → s.fetch_transactions_since state.last_transaction_id ≡ r
        → Kept ledger base state (sync_since s r st)
    unfolding sync_since
    fetched-Kept ledger base st state (raise e) complete known synced f = (synced, inr known)
    fetched-Kept ledger base st state (ok (transactions, newest)) complete known synced f =
        elim (finish_sync-cases newest (store_transactions s transactions st)) [
          | inl (e, r) ↦ rw r (
            (λ state' known'.
                All-IsStored base state'.last_transaction_id transactions ledger st
                  (synced state' (sym (store_transactions-raw transactions st).1 ∙ known'))),
            inr ((store_transactions-raw transactions st).1 ∙ known),
          )
          | inr (report, r) ↦ rw r (
            (λ state' known'.
                let same : newest ≡ state'.last_transaction_id = cc in
                subst
                  (λ n.
                    All
                      (λ (x : ℕ × C).
                        base < x.0
                        → x.0 ≤ n
                        → IsStored x.0 (store_transactions s transactions st).0)
                      ledger)
                  same
                  (All-zip base state.last_transaction_id newest transactions ledger st
                    (synced state known)
                    (complete state.last_transaction_id newest transactions f))),
            inl (report, refl),
          )
        ]

    -- If the broker leaves no transaction out of its answer, an incremental sync keeps this: all
    -- transactions of the ledger after the first watermark and up to the present one are stored.
    -- So it does when it raises half way, and then the watermark is as it was, so that the next
    -- sync asks for the same transactions again.
    pub incremental_sync-IsSynced :
        (ledger : List (ℕ × C)) (base : ℕ) (st : HistoryStore C E) (state : TradeHistorySyncState)
        → IsComplete ledger s
        → st.sync_state ≡ some state
        → IsSynced ledger base st
        → IsSynced ledger base (incremental_sync s st).0
          × (((report : SyncReport) × ((incremental_sync s st).1 ≡ ok report))
              ⊎ ((incremental_sync s st).0.sync_state ≡ some state))
    unfolding sync_from
    incremental_sync-IsSynced ledger base st state complete known synced =
        subst (λ o. Kept ledger base state (sync_from s o st)) (sym known)
          (fetched-Kept ledger base st state _ complete known synced refl)
