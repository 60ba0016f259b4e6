-- ===== src/HistorySync.antt =====
-- How the trade history is kept in step with the broker: incremental_sync and backfill_history of
-- journal/trade_history_service.py, over the tables of raw transactions and of events and the
-- sync state of data/persistence/trade_store.py. A transaction id is a number below 10 ^ 20, so
-- the sort key orders ids as numbers.
mod Tests
pub mod Rows
pub mod Watermark
pub mod Advance
pub mod Backfill
pub mod Gap
use mathlib.Core.Option
use oanda_v.Prelude.{
  ℕ, ◌+◌, ◌-◌, String, Bool, true, false, Option, none, some, List, [], ◌∷◌, map, nat_key,
  string_key, ◌==◌, Key, leb, ltb, if◌then◌else◌, Result, ok, raise, Error,
}
use oanda_v.Prelude.Dict.{Dict, lookup, insert}
use oanda_v.CandlePolicy.{Time, hours}
use oanda_v.Journal.{Trades}
use oanda_v.History.{split_utc_window}

-- `seen, inserted, updated`
pub record Counts : Type 0 where
  pub seen : ℕ
  pub inserted : ℕ
  pub updated : ℕ

abbrev pub no_rows : Counts
no_rows = record { seen = 0; inserted = 0; updated = 0 }

-- A table of rows under the ids that their upserts look for. A row is what it has beside its id.
module _ {K C : Type 0} ⦃key : Key K⦄ ⦃content : Key C⦄ where
  -- One round of the loop, by the row that is found.
  unfoldable pub upsert_found : Option C → K → C → Counts × Dict K C → Counts × Dict K C
  upsert_found none k c (n, table) = (
    record { seen = n.seen + 1; inserted = n.inserted + 1; updated = n.updated },
    insert k c table,
  )
  upsert_found (some existing) k c (n, table) =
      if existing == c
      then (record { seen = n.seen + 1; inserted = n.inserted; updated = n.updated }, table)
      else (
        record { seen = n.seen + 1; inserted = n.inserted; updated = n.updated + 1 },
        insert k c table,
      )

  unfoldable pub upsert_from : List (K × C) → Counts × Dict K C → Counts × Dict K C
  upsert_from [] s = s
  upsert_from ((k, c) ∷ rows) s = upsert_from rows (upsert_found (lookup k s.1) k c s)

  -- `upsert_raw_transactions` and `upsert_trade_history_events`
  abbrev pub upsert_rows : List (K × C) → Dict K C → Counts × Dict K C
  upsert_rows rows table = upsert_from rows (no_rows, table)

-- The row of the account that the settings name.
pub record TradeHistorySyncState : Type 0 where
  pub last_transaction_id : ℕ
  pub last_sync_utc : Time

pub record HistoryStore (C E : Type 0) : Type 0 where
  pub raw_transactions : Dict ℕ C
  pub trade_history_events : Dict String E
  pub trades : Trades
  pub sync_state : Option TradeHistorySyncState

-- What a sync asks of the rest of the program: the history client of the broker,
-- `normalize_transactions`, the projection of the events of trades and the repair of close
-- reasons (with the trades that each leaves behind), the local midnight of a date in UTC, and the
-- clock.
pub record HistorySources (C E : Type 0) : Type 0 where
  pub get_account_details : Result (Option ℕ)
  pub fetch_transactions_since : ℕ → Result (List (ℕ × C) × ℕ)
  pub fetch_transactions_for_window : Time → Time → Result (List (ℕ × C))
  pub normalize_transactions : List (ℕ × C) → Result (List (String × E))
  pub project_trade_records : List (String × E) → Dict String E → Trades → Trades × Result ℕ
  pub repair_manual_mit_closes : Dict String E → Trades → Trades × Result ℕ
  pub midnight : ℕ → Time
  pub now : Time

-- What a sync reports.
pub record SyncReport : Type 0 where
  pub raw : Counts
  pub events : Counts
  pub projected_trades : ℕ

abbrev pub empty_report : SyncReport
empty_report = record { raw = no_rows; events = no_rows; projected_trades = 0 }

abbrev pub add_counts : Counts → Counts → Counts
add_counts a b = record {
  seen = a.seen + b.seen;
  inserted = a.inserted + b.inserted;
  updated = a.updated + b.updated;
}

abbrev pub add_reports : SyncReport → SyncReport → SyncReport
add_reports a b = record {
  raw = add_counts a.raw b.raw;
  events = add_counts a.events b.events;
  projected_trades = a.projected_trades + b.projected_trades;
}

-- `max` by the sort key, beside what was found before.
unfoldable pub newest_id : {C : Type 0} → Option ℕ → List (ℕ × C) → Option ℕ
newest_id best [] = best
newest_id none ((k, c) ∷ transactions) = newest_id (some k) transactions
newest_id (some b) ((k, c) ∷ transactions) =
    newest_id (some (if ltb b k then k else b)) transactions

module _ {C E : Type 0} ⦃content : Key C⦄ ⦃event : Key E⦄ (s : HistorySources C E) where
  -- After the repair of close reasons.
  unfoldable pub after_repair :
      SyncReport → HistoryStore C E → Trades × Result ℕ → HistoryStore C E × Result SyncReport
  after_repair report st (trades, raise e) = (record st { trades = trades }, raise e)
  after_repair report st (trades, ok _) = (record st { trades = trades }, ok report)

  -- After the projection of trades.
  unfoldable pub after_projection :
      Counts → Counts → HistoryStore C E → Trades × Result ℕ → HistoryStore C E × Result SyncReport
  after_projection raw events st (trades, raise e) = (record st { trades = trades }, raise e)
  after_projection raw events st (trades, ok n) =
      after_repair (record { raw = raw; events = events; projected_trades = n })
        (record st { trades = trades }) (s.repair_manual_mit_closes st.trade_history_events trades)

  unfoldable pub store_normalized :
      Counts → HistoryStore C E → Result (List (String × E)) → HistoryStore C E × Result SyncReport
  store_normalized raw st (raise e) = (st, raise e)
  store_normalized raw st (ok events) =
      let (counts, table) = upsert_rows events st.trade_history_events in
      after_projection raw counts (record st { trade_history_events = table })
        (s.project_trade_records events table st.trades)

  -- What both syncs do with the transactions that they have fetched.
  unfoldable pub store_transactions :
      List (ℕ × C) → HistoryStore C E → HistoryStore C E × Result SyncReport
  store_transactions transactions st =
      let (counts, table) = upsert_rows transactions st.raw_transactions in
      store_normalized counts (record st { raw_transactions = table })
        (s.normalize_transactions transactions)

  abbrev pub with_watermark : ℕ → HistoryStore C E → HistoryStore C E
  with_watermark id st = record st {
    sync_state = some record { last_transaction_id = id; last_sync_utc = s.now };
  }

  -- The watermark is written after all the rest.
  unfoldable pub finish_sync :
      ℕ → HistoryStore C E × Result SyncReport → HistoryStore C E × Result SyncReport
  finish_sync newest (st, raise e) = (st, raise e)
  finish_sync newest (st, ok report) = (with_watermark newest st, ok report)

  unfoldable pub sync_since :
      Result (List (ℕ × C) × ℕ) → HistoryStore C E → HistoryStore C E × Result SyncReport
  sync_since (raise e) st = (st, raise e)
  sync_since (ok (transactions, newest)) st =
      finish_sync newest (store_transactions transactions st)

  unfoldable pub initialize :
      Result (Option ℕ) → HistoryStore C E → HistoryStore C E × Result SyncReport
  initialize (raise e) st = (st, raise e)
  initialize (ok none) st = (st, raise Error.runtime_error)
  initialize (ok (some id)) st = (with_watermark id st, ok empty_report)

  -- By the stored state of the sync.
  unfoldable pub sync_from :
      Option TradeHistorySyncState → HistoryStore C E → HistoryStore C E × Result SyncReport
  sync_from none st = initialize s.get_account_details st
  sync_from (some state) st = sync_since (s.fetch_transactions_since state.last_transaction_id) st

  abbrev pub incremental_sync : HistoryStore C E → HistoryStore C E × Result SyncReport
  incremental_sync st = sync_from st.sync_state st

  -- `_advance_sync_state_watermark`, by the stored state of the sync.
  unfoldable pub advance_from :
      Option TradeHistorySyncState → ℕ → HistoryStore C E → HistoryStore C E
  advance_from none candidate st = with_watermark candidate st
  advance_from (some existing) candidate st =
      if leb candidate existing.last_transaction_id then st else with_watermark candidate st

  unfoldable pub advance_watermark : Option ℕ → HistoryStore C E → HistoryStore C E
  advance_watermark none st = st
  advance_watermark (some candidate) st = advance_from st.sync_state candidate st

  -- What is left after a chunk.
  unfoldable pub after_chunk :
      (SyncReport → HistoryStore C E → HistoryStore C E × Result SyncReport)
      → SyncReport
      → HistoryStore C E × Result SyncReport
      → HistoryStore C E × Result SyncReport
  after_chunk rest total (st, raise e) = (st, raise e)
  after_chunk rest total (st, ok report) = rest (add_reports total report) st

  -- One chunk, by what was fetched for it.
  unfoldable pub backfill_fetched :
      (Option ℕ → SyncReport → HistoryStore C E → HistoryStore C E × Result SyncReport)
      → Result (List (ℕ × C))
      → Option ℕ
      → SyncReport
      → HistoryStore C E
      → HistoryStore C E × Result SyncReport
  backfill_fetched rest (raise e) best total st = (st, raise e)
  backfill_fetched rest (ok transactions) best total st =
      after_chunk (rest (newest_id best transactions)) total (store_transactions transactions st)

  -- The loop over the chunks, and the watermark after it.
  unfoldable pub backfill_chunks :
      List (Time × Time)
      → Option ℕ
      → SyncReport
      → HistoryStore C E
      → HistoryStore C E × Result SyncReport
  backfill_chunks [] best total st = (advance_watermark best st, ok total)
  backfill_chunks ((start, end) ∷ chunks) best total st =
      backfill_fetched (backfill_chunks chunks) (s.fetch_transactions_for_window start end) best
        total st

  -- Dates are ordinals. The fuel of the window is its length.
  abbrev pub chunks_of : ℕ → ℕ → List (Time × Time)
  chunks_of start_day end_day =
      let start_utc = s.midnight start_day in
      let end_utc = s.midnight (end_day + 1) in
      split_utc_window (end_utc - start_utc) start_utc end_utc (hours 720)

  unfoldable pub backfill_history : ℕ → ℕ → HistoryStore C E → HistoryStore C E × Result SyncReport
  backfill_history start_day end_day st =
      if ltb end_day start_day
      then (st, raise Error.value_error)
      else backfill_chunks (chunks_of start_day end_day) none empty_report st
