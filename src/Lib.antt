-- ===== src/Lib.antt =====
-- Verification of the local market-analysis and trade-journal runtime.
--
-- A scan asks the candle cache for closed candles, analyses them, and publishes one snapshot for
-- each instrument and timeframe in the market state store. From pinned snapshot versions it then
-- assembles one order-block tracker for each instrument. The candle cache looks in memory, in CSV
-- files and in the broker's API, in this order, and judges by the candle policy whether what it
-- has found is fresh. Whether a market is open at all is told by the market hours. Apart from the
-- scans, the trade poller compares the broker's open trades with the journal of trades, and
-- writes the differences into it as trade events, while the trade history fetches the broker's
-- transactions, takes the amounts of its order fills and sums them up. The alerts that a chat asks
-- for are kept in the same store as the journal, and so are the samples that the excursion tracker
-- takes of open trades from the stream of prices. Statistics are computed from the closed trades.
--
--   Prelude       shared names, lemmas on lists, results and association lists.
--   Instruments   core/instrument_registry.py: the scan registry and get_instrument_spec.
--   CandlePolicy  core/candle_policy.py: TIMEFRAME_DELTAS, floor_time_to_boundary,
--                 get_last_completed_candle_start, calculate_candle_staleness_seconds.
--   Contracts     core/models.py: TimeframeSnapshot, InstrumentOrderBlockTracker and TradeRecord,
--                 with the checks of their validators.
--   MarketState   core/market_state.py: MarketStateStore, one function for each method. Log is an
--                 append-only log of publications, which the store refines.
--   Frames        the pandas operations on candle frames, and validate_candle_df.
--   CandleCache   providers/cache.py: CandleCache, one function for each method, over the files of
--                 data/csv_persistence.py and the cache_metadata rows of
--                 data/persistence/trade_store.py.
--   MarketHours   data/market_hours.py: MarketHoursService, one function for each method, over the
--                 sessions of the exchange calendars.
--   Journal       journal/journal_service.py: JournalService, one function for each handler, over
--                 the trades table of data/persistence/trade_store.py and core/events.py.
--   Poller        background/poller_task.py: TradePollerTask, the loops of a poll as steps on the
--                 trades table.
--   History       journal/trade_normalizer.py: the legs of an order fill, its commission and its events;
--                 journal/trade_history_service.py: realized profit, chunks of a backfill.
--   Alerts        data/persistence/trade_store.py: the tables of price, indicator and time alerts,
--                 one function for each method, with the contracts of core/models.py.
--   HistorySync   journal/trade_history_service.py: incremental_sync and backfill_history, over the
--                 history tables and the sync state of data/persistence/trade_store.py.
--   HistoryPages  journal/trade_history_service.py: the views and pages of get_trade_history.
--   Statistics    journal/trade_stats_service.py: the summary of closed trades and its drawdown.
--   Excursions    tracking/excursion_tracker.py: ExcursionTracker, over the excursion samples of
--                 data/persistence/trade_store.py.
--
-- State is passed explicitly: a method that changes its object returns the new state, beside a
-- result that is a value or the class of the exception. A method that raises half way returns the
-- state that it leaves behind. Dictionaries and tables are association lists. An instant is the
-- number of nanoseconds since 0001-01-01 in UTC, and a date its proleptic ordinal. The New York
-- time zone is a parameter (Zone) with the laws of IsZone, and so are the resolution of
-- instrument names against the broker's catalog, the fetcher of candles, the exchange calendars,
-- the broker's answers, and the readings of the clock. A sync of the trade history takes three
-- more parts of the program as parameters, which are not modelled: the normalizer of transaction
-- payloads, the projection of events onto trades, and the repair of close reasons. Prices of candles are values of an
-- arbitrary type; in the journal a price or an amount is a whole number of smallest steps. Loops
-- are structural recursion, but for the chunks of a backfill, which take fuel: the length of the
-- window is enough, since each chunk moves on.
--
-- Not modelled: the network clients, the floating-point indicators and order-block detection,
-- chart drawing, the servers and the logs. Writes to disk are taken to succeed, and the text of a
-- CSV file to read back as the frame that was written. The locks are modelled by making each call
-- one step.
pub mod Prelude
pub mod Instruments
pub mod CandlePolicy
pub mod Contracts
pub mod MarketState
pub mod Frames
pub mod CandleCache
pub mod MarketHours
pub mod Journal
pub mod Poller
pub mod History
pub mod Alerts
pub mod Excursions
pub mod HistorySync
pub mod Statistics
pub mod HistoryPages
