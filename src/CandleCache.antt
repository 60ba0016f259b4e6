-- ===== src/CandleCache.antt =====
-- `CandleCache` (providers/cache.py): candles through memory, CSV files and the API. The time zone,
-- the resolution of instrument names against the broker's catalog and the fetcher are parameters.
-- The disk and the metadata table accept every write, and the CSV text of a frame reads back as the
-- frame. Each call takes the readings of the clock that it uses.
pub mod Invariant
pub mod Memory
pub mod Refresh
pub mod Requests
pub mod Serving
mod Tests
use mathlib.Core.Option
use oanda_v.Prelude.{
  ℕ, ◌+◌, String, Bool, true, false, Option, none, some, List, [], ◌∷◌, nat_key, string_key,
  pair_key, ◌==◌, is_empty, length, last?, if◌then◌else◌, Result, ok, raise, Error,
}
use oanda_v.Prelude.Results.{◌>>=◌}
use oanda_v.Prelude.Dict.{Dict, lookup, insert}
use oanda_v.CandlePolicy.{Time}
use oanda_v.CandlePolicy.Boundary.{Zone, calculate_candle_staleness}
use oanda_v.Frames.{Candle, validate_candle_df, combine, tail}

abbrev pub CacheKey : Type 0
CacheKey = String × String

abbrev pub Frame : Type 0 → Type 0
Frame P = List (Candle P)

pub record CacheEntry (P : Type 0) : Type 0 where
  pub candles : Frame P
  pub last_completed_candle : Time
  pub fetched_at : Time
  pub source : String
  pub candle_count : ℕ

-- A row of the `cache_metadata` table (data/persistence/trade_store.py).
pub record CacheMetadata : Type 0 where
  pub last_completed_candle : Time
  pub fetched_at : Time
  pub candle_count : ℕ
  pub source : String

-- A CSV file, with its modification time.
pub record CsvFile (P : Type 0) : Type 0 where
  pub candles : Frame P
  pub modified_at : Time

pub record CandleCache (P : Type 0) : Type 0 where
  pub memory_cache : Dict CacheKey (CacheEntry P)
  pub csv_store : Dict CacheKey (CsvFile P)
  pub cache_metadata : Dict CacheKey CacheMetadata

-- `CandleFreshness` (providers/base.py), without the names that it repeats.
pub record CandleFreshness : Type 0 where
  pub last_completed_candle : Option Time
  pub fetched_at : Option Time
  pub source : Option String
  pub candle_count : ℕ
  pub is_fresh : Bool
  pub staleness : Option ℕ

-- `CacheFetcher`: instrument, timeframe, count and since.
abbrev pub CacheFetcher : Type 0 → Type 0
CacheFetcher P = String → String → ℕ → Option Time → Result (Frame P)

unfoldable pub is_cache_fresh : Zone → Time → String → Time → Result Bool
is_cache_fresh z cached_last_candle timeframe now = do
  staleness ← calculate_candle_staleness z cached_last_candle timeframe now
  ok (staleness == 0)

module _ {P : Type 0} where
  -- `CandleCsvStore.save_candles` (data/csv_persistence.py).
  unfoldable pub save_candles : CacheKey → Frame P → Time → CandleCache P → CandleCache P
  save_candles key candles now c =
      let file : CsvFile P = record { candles = validate_candle_df candles; modified_at = now } in
      record c { csv_store = insert key file c.csv_store }

  -- `CandleCsvStore.load_candles`.
  unfoldable pub load_candles : CacheKey → CandleCache P → Option (Frame P × Time)
  load_candles key c =
      Option.map (λ (f : CsvFile P). (validate_candle_df f.candles, f.modified_at))
        (lookup key c.csv_store)

  -- `_persist_entry` of a validated frame, by its newest candle.
  unfoldable pub persist_newest :
      Option (Candle P)
      → CacheKey
      → Frame P
      → String
      → Time
      → CandleCache P
      → Result (CacheEntry P) × CandleCache P
  persist_newest none key validated source fetched_at c = (raise Error.runtime_error, c)
  persist_newest (some newest) key validated source fetched_at c =
      let entry : CacheEntry P = record {
        candles = validated;
        last_completed_candle = newest.time;
        fetched_at = fetched_at;
        source = source;
        candle_count = length validated;
      } in
      let metadata : CacheMetadata = record {
        last_completed_candle = entry.last_completed_candle;
        fetched_at = entry.fetched_at;
        candle_count = entry.candle_count;
        source = entry.source;
      } in
      let saved = save_candles key validated fetched_at c in
      (
        ok entry,
        record saved {
          cache_metadata = insert key metadata c.cache_metadata;
          memory_cache = insert key entry c.memory_cache;
        },
      )

  unfoldable pub persist_entry :
      CacheKey → Frame P → String → Time → CandleCache P → Result (CacheEntry P) × CandleCache P
  persist_entry key candles source fetched_at c =
      let validated = validate_candle_df candles in
      persist_newest (last? validated) key validated source fetched_at c

  -- `_load_csv_entry` of a file that is there, by the row of metadata, the flag
  -- `bootstrap_metadata` and the newest candle; `iloc[-1]` of an empty frame is an IndexError.
  unfoldable pub load_file :
      Option CacheMetadata
      → Bool
      → Option (Candle P)
      → CacheKey
      → Frame P
      → Time
      → CandleCache P
      → Result (Option (CacheEntry P)) × CandleCache P
  load_file none false newest key candles modified_at c = (ok none, c)
  load_file none true none key candles modified_at c = (raise Error.index_error, c)
  load_file none true (some newest) key candles modified_at c =
      let entry : CacheEntry P = record {
        candles = candles;
        last_completed_candle = newest.time;
        fetched_at = modified_at;
        source = "csv";
        candle_count = length candles;
      } in
      let metadata : CacheMetadata = record {
        last_completed_candle = newest.time;
        fetched_at = modified_at;
        candle_count = length candles;
        source = "csv";
      } in
      (ok (some entry), record c { cache_metadata = insert key metadata c.cache_metadata })
  load_file (some m) bootstrap none key candles modified_at c = (raise Error.index_error, c)
  load_file (some m) bootstrap (some newest) key candles modified_at c =
      let entry : CacheEntry P = record {
        candles = candles;
        last_completed_candle = newest.time;
        fetched_at = m.fetched_at;
        source = m.source;
        candle_count = m.candle_count;
      } in
      (ok (some entry), c)

  unfoldable pub load_found :
      Option (Frame P × Time)
      → Bool
      → CacheKey
      → CandleCache P
      → Result (Option (CacheEntry P)) × CandleCache P
  load_found none bootstrap key c = (ok none, c)
  load_found (some (candles, modified_at)) bootstrap key c =
      load_file (lookup key c.cache_metadata) bootstrap (last? candles) key candles modified_at c

  unfoldable pub load_csv_entry :
      Bool → CacheKey → CandleCache P → Result (Option (CacheEntry P)) × CandleCache P
  load_csv_entry bootstrap_metadata key c = load_found (load_candles key c) bootstrap_metadata key c
