-- ===== src/HistorySync/Gap.antt =====
-- Transactions that a backfill passes over (`backfill_history`,
-- journal/trade_history_service.py).
use mathlib.Core.Option
use oanda_v.Prelude.{
  ℕ, ◌≤◌, ◌<◌, ◌≡◌, refl, sym, ap, subst, ◌∙◌, false, Option, none, some, List, [], ◌∷◌, nat_key,
  Key, ◌==◌, ltb, Option-cases, inl, inr, if◌then◌else◌, ok, All, Any, arith,
}
use oanda_v.Prelude.Dict.{lookup}
use oanda_v.HistorySync.{
  SyncReport, HistoryStore, HistorySources, TradeHistorySyncState, newest_id, chunks_of,
  backfill_history,
}
use oanda_v.HistorySync.Rows.{latest, lookup-upsert_rows}
use oanda_v.HistorySync.Watermark.{IsStored, IsSynced}
use oanda_v.HistorySync.Advance.{watermark, newest_id-larger}
use oanda_v.HistorySync.Backfill.{fetch_all, backfill_history-Stores}

module _ {C E : Type 0} ⦃content : Key C⦄ ⦃event : Key E⦄ (s : HistorySources C E) where
  latest-missing :
      (k : ℕ) (xs : List (ℕ × C)) (before : Option C)
      → All (λ (x : ℕ × C). (x.0 == k) ≡ false) xs
      → latest k xs before ≡ before
  latest-missing k [] before h = refl
  latest-missing k ((j, c) ∷ xs) before (f, h) = rw f (latest-missing k xs before h)

  missing-not_synced :
      (k base m : ℕ) (c : C) (ledger : List (ℕ × C)) (st : HistoryStore C E)
      → Any (λ (x : ℕ × C). x ≡ (k, c)) ledger
      → lookup k st.raw_transactions ≡ none
      → base < k
      → k ≤ m
      → All (λ (x : ℕ × C). base < x.0 → x.0 ≤ m → IsStored x.0 st) ledger
      → ⊥
  missing-not_synced k base m c [] st a none_stored above below h = elim a [ ]
  missing-not_synced k base m c (x ∷ ledger) st (Any.there a) none_stored above below (_, h) =
      missing-not_synced k base m c ledger st a none_stored above below h
  missing-not_synced k base m c (x ∷ ledger) st (Any.here p) none_stored above below (h, _) =
      let e : x.0 ≡ k = ap (λ (y : ℕ × C). y.0) p in
      let (d, found) : IsStored k st =
        subst (λ n. base < n → n ≤ m → IsStored n st) e h above below in
      absurd (cc)

  larger-above : (l m : ℕ) → m ≤ (if ltb l m then m else l)
  larger-above l m = ground arith

  newest_id-above :
      (o : Option ℕ) (m : ℕ) (all : List (ℕ × C))
      → newest_id none all ≡ some m
      → (n : ℕ) × (newest_id o all ≡ some n) × (m ≤ n)
  unfolding newest_id
  newest_id-above o m [] e = absurd (cc)
  newest_id-above none m ((k, c) ∷ all) e = (m, e, omega arith)
  newest_id-above (some l) m ((k, c) ∷ all) e = (
    _,
    newest_id-larger s l k all ∙ ap (Option.map (λ x. if ltb l x then x else l)) e,
    larger-above l m,
  )

  watermark-some :
      (n : ℕ) (st : HistoryStore C E)
      → watermark s st ≡ some n
      → (state : TradeHistorySyncState) × (st.sync_state ≡ some state)
        × (state.last_transaction_id ≡ n)
  watermark-some n st h = elim (Option-cases st.sync_state) [
    | inl e ↦
        let h' =
          sym (ap (Option.map (λ (x : TradeHistorySyncState). x.last_transaction_id)) e) ∙ h in
        absurd (cc)
    | inr (w, e) ↦
        let h' =
          sym (ap (Option.map (λ (x : TradeHistorySyncState). x.last_transaction_id)) e) ∙ h in
        (w, e, cc)
  ]

  -- A backfill can leave a gap below the watermark: after one that succeeds, a transaction of the
  -- ledger that was not stored before and that none of its chunks has, but that is not after the
  -- newest fetched one, lies below the watermark and is not stored.
  pub backfill_history-gap :
      (ledger : List (ℕ × C)) (base k m start_day end_day : ℕ) (c : C) (report : SyncReport)
      (all : List (ℕ × C)) (st st' : HistoryStore C E)
      → backfill_history s start_day end_day st ≡ (st', ok report)
      → fetch_all s (chunks_of s start_day end_day) ≡ ok all
      → Any (λ (x : ℕ × C). x ≡ (k, c)) ledger
      → lookup k st.raw_transactions ≡ none
      → All (λ (x : ℕ × C). (x.0 == k) ≡ false) all
      → newest_id none all ≡ some m
      → base < k
      → k ≤ m
      → ¬ IsSynced ledger base st'
  backfill_history-gap ledger base k m start_day end_day c report all st st' h fetched a none_stored
        missing newest above below synced =
      let (all', fetched', raw, mark) =
        backfill_history-Stores s start_day end_day report st st' h in
      let same : all' ≡ all = cc in
      let (n, newest', l) = newest_id-above (watermark s st) m all newest in
      let (w, known, last) =
        watermark-some n st' (mark ∙ ap (newest_id (watermark s st)) same ∙ newest') in
      let absent : lookup k st'.raw_transactions ≡ none =
        raw k
        ∙ lookup-upsert_rows k all' st.raw_transactions
        ∙ ap (λ xs. latest k xs (lookup k st.raw_transactions)) same
        ∙ latest-missing k all (lookup k st.raw_transactions) missing
        ∙ none_stored in
      missing-not_synced k base w.last_transaction_id c ledger st' a absent above
        (omega (arith, last)) (synced w known)
