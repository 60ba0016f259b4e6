-- ===== src/HistorySync/Backfill.antt =====
-- What a backfill stores, and where it leaves the watermark (`backfill_history`,
-- journal/trade_history_service.py).
use oanda_v.Prelude.{
  ℕ, ◌≡◌, refl, sym, ap, ◌∙◌, Option, none, some, List, [], ◌∷◌, ◌++◌, nat_key, Key, ◌==◌, ltb,
  Bool-cases, inl, inr, if◌then◌else◌, Result, ok, raise,
}
use oanda_v.Prelude.Results.{◌>>=◌, Result-cases}
use oanda_v.Prelude.Dict.{lookup}
use oanda_v.CandlePolicy.{Time}
use oanda_v.HistorySync.{
  SyncReport, HistoryStore, HistorySources, upsert_rows, store_transactions, newest_id,
  advance_watermark, after_chunk, backfill_fetched, backfill_chunks, chunks_of, backfill_history,
  add_reports, empty_report,
}
use oanda_v.HistorySync.Rows.{latest, lookup-upsert_rows}
use oanda_v.HistorySync.Watermark.{store_transactions-raw}
use oanda_v.HistorySync.Advance.{
  watermark, newest_id-append, advance_watermark-newest, advance_watermark-same,
  advance_watermark-raw,
}

module _ {C E : Type 0} ⦃content : Key C⦄ ⦃event : Key E⦄ (s : HistorySources C E) where
  -- All the transactions of the chunks, one chunk after the other.
  abbrev pub fetch_all : List (Time × Time) → Result (List (ℕ × C))
  fetch_all [] = ok []
  fetch_all ((start, end) ∷ chunks) = s.fetch_transactions_for_window start end >>= λ transactions.
      (fetch_all chunks >>= λ rest. ok (transactions ++ rest))

  latest-append :
      (k : ℕ) (xs ys : List (ℕ × C)) (before : Option C)
      → latest k (xs ++ ys) before ≡ latest k ys (latest k xs before)
  latest-append k [] ys before = refl
  latest-append k ((j, c) ∷ xs) ys before =
      latest-append k xs ys (if j == k then some c else before)

  -- What a run of the loop does, beside the fetched transactions.
  abbrev Backfilled : List (Time × Time) → Option ℕ → HistoryStore C E → HistoryStore C E → Type 0
  Backfilled chunks best st st' =
      (all : List (ℕ × C)) × (fetch_all chunks ≡ ok all)
      × ((k : ℕ) → lookup k st'.raw_transactions ≡ latest k all (lookup k st.raw_transactions))
      × (watermark s st' ≡ watermark s (advance_watermark s (newest_id best all) st))

  after_chunk-ok :
      (rest : SyncReport → HistoryStore C E → HistoryStore C E × Result SyncReport)
      (total report : SyncReport) (p : HistoryStore C E × Result SyncReport)
      (st' : HistoryStore C E)
      → after_chunk s rest total p ≡ (st', ok report)
      → (total' : SyncReport) × (rest total' p.0 ≡ (st', ok report))
  unfolding after_chunk
  after_chunk-ok rest total report (st, ok r) st' h = (add_reports total r, h)
  after_chunk-ok rest total report (st, raise e) st' h = absurd (cc)

  backfill_chunks-Stores :
      (chunks : List (Time × Time)) (best : Option ℕ) (total report : SyncReport)
      (st st' : HistoryStore C E)
      → backfill_chunks s chunks best total st ≡ (st', ok report)
      → Backfilled chunks best st st'
  unfolding backfill_chunks backfill_fetched newest_id advance_watermark
  backfill_chunks-Stores [] best total report st st' h =
      let e : advance_watermark s best st ≡ st' = cc in
      (
        [],
        refl,
        (λ k.
            ap (λ (x : HistoryStore C E). lookup k x.raw_transactions) (sym e)
            ∙ ap (lookup k) (advance_watermark-raw s best st)),
        ap (watermark s) (sym e),
      )
  backfill_chunks-Stores ((start, end) ∷ chunks) best total report st st' h =
      elim (Result-cases (s.fetch_transactions_for_window start end)) [
        | inr (e, f) ↦ let h' = rw f at h in absurd (cc)
        | inl (txs, f) ↦
            let (total', h') =
              after_chunk-ok (backfill_chunks s chunks (newest_id best txs)) total report
                (store_transactions s txs st) st' (rw f at h) in
            let (all, fetched, raw, mark) =
              backfill_chunks-Stores chunks (newest_id best txs) total' report
                (store_transactions s txs st).0 st' h' in
            let (raw', same) = store_transactions-raw s txs st in
            (
              txs ++ all,
              rw (f, fetched) refl,
              (λ k.
                  raw k
                  ∙ ap (latest k all) (rw raw' (lookup-upsert_rows k txs st.raw_transactions))
                  ∙ sym (latest-append k txs all (lookup k st.raw_transactions))),
              mark
                  ∙ advance_watermark-same s (newest_id (newest_id best txs) all) st
                      (store_transactions s txs st).0 same
                  ∙ ap (λ o. watermark s (advance_watermark s o st))
                      (sym (newest_id-append s best txs all)),
            )
      ]

  -- A backfill that succeeds does what one upsert of all the transactions of its chunks would do,
  -- and moves the watermark to the newest id among them, if that is newer than the watermark.
  pub backfill_history-Stores :
      (start_day end_day : ℕ) (report : SyncReport) (st st' : HistoryStore C E)
      → backfill_history s start_day end_day st ≡ (st', ok report)
      → (all : List (ℕ × C)) × (fetch_all (chunks_of s start_day end_day) ≡ ok all)
        × ((k : ℕ)
            → lookup k st'.raw_transactions ≡ lookup k (upsert_rows all st.raw_transactions).1)
        × (watermark s st' ≡ newest_id (watermark s st) all)
  unfolding backfill_history
  backfill_history-Stores start_day end_day report st st' h =
      elim (Bool-cases (ltb end_day start_day)) [
        | inl e ↦ let h' = rw e at h in absurd (cc)
        | inr e ↦
            let (all, fetched, raw, mark) =
              backfill_chunks-Stores (chunks_of s start_day end_day) none empty_report report st st'
                (rw e at h) in
            (
              all,
              fetched,
              (λ k. raw k ∙ sym (lookup-upsert_rows k all st.raw_transactions)),
              mark ∙ advance_watermark-newest s st all,
            )
      ]
