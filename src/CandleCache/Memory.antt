-- ===== src/CandleCache/Memory.antt =====
-- `get_candles` where memory holds an entry for the key (providers/cache.py).
use oanda_v.Prelude.{
  ℕ, ◌+◌, ◌<◌, ◌≡◌, String, none, some, ◌∷◌, false, nat_key, string_key, pair_key, length, Result,
  ok, arith,
}
use oanda_v.Prelude.Dict.{lookup, insert, lookup-insert_self}
use oanda_v.CandlePolicy.{Time}
use oanda_v.CandlePolicy.Boundary.{Zone}
use oanda_v.Frames.{Candle, tail, combine}
use oanda_v.Frames.Merge.{last_at, IsDistinct, combine_lem, combine-last?}
use oanda_v.Frames.Sorting.{IsSorted, sort_by_time_of_IsSorted}
use oanda_v.CandleCache.{
  CacheKey, Frame, CacheEntry, CandleCache, CacheFetcher, is_cache_fresh, persist_entry,
  CacheMetadata, CsvFile, persist_newest, save_candles,
}
use oanda_v.CandleCache.Refresh.{append_with, append_refresh}
use oanda_v.CandleCache.Requests.{
  resolve_key, serve_fresh, serve_memory, serve_request, get_candles,
}

module _ {P : Type 0} (z : Zone) (resolve : String → Result String) where
  module _ (instrument timeframe : String) (key : CacheKey) (delta count : ℕ)
      (now fetched_at : Time) (c : CandleCache P) (entry : CacheEntry P)
      (resolved : resolve_key resolve instrument timeframe ≡ ok (key, delta))
      (hit : lookup key c.memory_cache ≡ some entry) where
    -- A stale entry in memory for which the fetcher has newer candles is extended: the answer is
    -- the tail of a sorted frame, which memory and the CSV file hold afterwards. It has at most one
    -- candle for each time: the newer one where there is one, and the old one otherwise.
    pub get_candles-refreshed :
        (fetcher : CacheFetcher P) (x : Candle P) (xs : Frame P)
        → 0 < count
        → is_cache_fresh z entry.last_completed_candle key.1 now ≡ ok false
        → fetcher key.0 key.1 count (some (entry.last_completed_candle + delta)) ≡ ok (x ∷ xs)
        → (merged : CacheEntry P) × (after : CandleCache P) × (get_candles z resolve instrument
              timeframe count fetcher now fetched_at c
            ≡ (ok (tail count merged.candles), after))
          × (lookup key after.memory_cache ≡ some merged)
          × (lookup key after.csv_store
              ≡ some (record { candles = merged.candles; modified_at = fetched_at }))
          × IsSorted merged.candles
          × IsDistinct merged.candles
          × ((t : Time)
              → last_at t merged.candles
                ≡ elim (last_at t (x ∷ xs)) [ none ↦ last_at t entry.candles | some d ↦ some d ])
    unfolding get_candles serve_request serve_memory serve_fresh append_refresh append_with
        persist_entry persist_newest save_candles
    get_candles-refreshed fetcher x xs positive stale answer =
        let ws = combine entry.candles (x ∷ xs) in
        let (sorted, distinct, contents) = combine_lem entry.candles (x ∷ xs) in
        let same = sort_by_time_of_IsSorted ws sorted in
        let (d, last) = combine-last? entry.candles x xs in
        let merged : CacheEntry P = record {
          candles = ws;
          last_completed_candle = d.time;
          fetched_at = fetched_at;
          source = "oanda_api";
          candle_count = length ws;
        } in
        let row : CacheMetadata = record {
          last_completed_candle = d.time;
          fetched_at = fetched_at;
          candle_count = length ws;
          source = "oanda_api";
        } in
        let file : CsvFile P = record { candles = ws; modified_at = fetched_at } in
        (
          merged,
          record {
            memory_cache = insert key merged c.memory_cache;
            csv_store = insert key file c.csv_store;
            cache_metadata = insert key row c.cache_metadata;
          },
          ground arith,
          lookup-insert_self key merged c.memory_cache,
          lookup-insert_self key file c.csv_store,
          sorted,
          distinct,
          contents,
        )
