-- ===== src/CandleCache/Requests.antt =====
-- The requests that the candle cache serves (providers/cache.py). `resolve` is
-- `validate_live_instrument`, which asks the broker's catalog; `now` is the time by which freshness
-- is judged and `fetched_at` the time that a fetched entry is stamped with.
use oanda_v.Prelude.{
  ℕ, String, Bool, true, false, Option, none, some, [], nat_key, string_key, pair_key, ◌==◌, leb,
  if◌then◌else◌, Result, ok, raise, Error,
}
use oanda_v.Prelude.Results.{◌>>=◌}
use oanda_v.Prelude.Dict.{lookup, insert}
use oanda_v.CandlePolicy.{Time, get_timeframe_delta}
use oanda_v.CandlePolicy.Boundary.{Zone, calculate_candle_staleness}
use oanda_v.Frames.{tail}
use oanda_v.CandleCache.{
  CacheKey, Frame, CacheEntry, CandleCache, CandleFreshness, CacheFetcher, is_cache_fresh,
  load_csv_entry,
}
use oanda_v.CandleCache.Refresh.{replace_from_api, append_refresh}

-- The checks that the requests begin with.
abbrev pub resolve_key : (String → Result String) → String → String → Result (CacheKey × ℕ)
resolve_key resolve instrument timeframe = do
  resolved_instrument ← resolve instrument
  delta ← get_timeframe_delta timeframe
  ok ((resolved_instrument, timeframe), delta)

-- `_freshness_from_entry` and, for rows of the table, `_freshness_from_metadata`.
abbrev pub freshness_from : Zone → String → Time → Time → Time → String → ℕ → Result CandleFreshness
freshness_from z timeframe now last fetched_at source candle_count = do
  staleness ← calculate_candle_staleness z last timeframe now
  ok (record {
    last_completed_candle = some last;
    fetched_at = some fetched_at;
    source = some source;
    candle_count = candle_count;
    is_fresh = staleness == 0;
    staleness = some staleness;
  })

module _ {P : Type 0} where
  -- After a miss in memory: `_load_csv_entry` without the bootstrap of metadata.
  unfoldable pub promote :
      CacheKey
      → ℕ
      → Result (Option (CacheEntry P)) × CandleCache P
      → Result (Option (Frame P)) × CandleCache P
  promote key count (raise e, c) = (raise e, c)
  promote key count (ok none, c) = (ok none, c)
  promote key count (ok (some entry), c) = (
    ok (some (tail count entry.candles)),
    record c { memory_cache = insert key entry c.memory_cache },
  )

module _ {P : Type 0} where
  -- What `get_candles` does with an entry that it has found, in memory or in a file (the same lines
  -- twice), by its freshness.
  unfoldable pub serve_fresh :
      Result Bool
      → CacheKey
      → ℕ
      → ℕ
      → CacheEntry P
      → CacheFetcher P
      → Time
      → CandleCache P
      → Result (Frame P) × CandleCache P
  serve_fresh (raise e) key delta count entry fetcher fetched_at c = (raise e, c)
  serve_fresh (ok true) key delta count entry fetcher fetched_at c =
      if leb count entry.candle_count
      then (ok (tail count entry.candles), c)
      else replace_from_api key count fetcher fetched_at c
  serve_fresh (ok false) key delta count entry fetcher fetched_at c =
      append_refresh key delta count entry fetcher fetched_at c

module _ {P : Type 0} (z : Zone) where
  abbrev pub serve_entry :
      CacheKey
      → ℕ
      → ℕ
      → CacheEntry P
      → CacheFetcher P
      → Time
      → Time
      → CandleCache P
      → Result (Frame P) × CandleCache P
  serve_entry key delta count entry fetcher now fetched_at c =
      serve_fresh (is_cache_fresh z entry.last_completed_candle key.1 now) key delta count entry
        fetcher fetched_at c

  -- What follows where memory has no entry.
  unfoldable pub serve_csv :
      CacheKey
      → ℕ
      → ℕ
      → CacheFetcher P
      → Time
      → Time
      → Result (Option (CacheEntry P)) × CandleCache P
      → Result (Frame P) × CandleCache P
  serve_csv key delta count fetcher now fetched_at (raise e, c) = (raise e, c)
  serve_csv key delta count fetcher now fetched_at (ok none, c) =
      replace_from_api key count fetcher fetched_at c
  serve_csv key delta count fetcher now fetched_at (ok (some entry), c) =
      serve_entry key delta count entry fetcher now fetched_at
        (record c { memory_cache = insert key entry c.memory_cache })

  -- `get_candles` of a checked key, by what memory holds.
  unfoldable pub serve_memory :
      Option (CacheEntry P)
      → CacheKey
      → ℕ
      → ℕ
      → CacheFetcher P
      → Time
      → Time
      → CandleCache P
      → Result (Frame P) × CandleCache P
  serve_memory (some entry) key delta count fetcher now fetched_at c =
      serve_entry key delta count entry fetcher now fetched_at c
  serve_memory none key delta count fetcher now fetched_at c =
      serve_csv key delta count fetcher now fetched_at (load_csv_entry true key c)

  unfoldable pub serve_request :
      Result (CacheKey × ℕ)
      → ℕ
      → CacheFetcher P
      → Time
      → Time
      → CandleCache P
      → Result (Frame P) × CandleCache P
  serve_request (raise e) count fetcher now fetched_at c = (raise e, c)
  serve_request (ok (key, delta)) count fetcher now fetched_at c =
      if count == 0
      then (raise Error.value_error, c)
      else serve_memory (lookup key c.memory_cache) key delta count fetcher now fetched_at c

  module _ (resolve : String → Result String) where
    unfoldable pub get_candles :
        String
        → String
        → ℕ
        → CacheFetcher P
        → Time
        → Time
        → CandleCache P
        → Result (Frame P) × CandleCache P
    get_candles instrument timeframe count fetcher now fetched_at c =
        serve_request (resolve_key resolve instrument timeframe) count fetcher now fetched_at c

    unfoldable pub get_cached_candles :
        String → String → ℕ → CandleCache P → Result (Option (Frame P)) × CandleCache P
    get_cached_candles instrument timeframe count c =
        elim (resolve_key resolve instrument timeframe) [
          | raise e ↦ (raise e, c)
          | ok (key, _) ↦
              if count == 0
              then (raise Error.value_error, c)
              else elim (lookup key c.memory_cache) [
                | some entry ↦ (ok (some (tail count entry.candles)), c)
                | none ↦ promote key count (load_csv_entry false key c)
              ]
        ]

    unfoldable pub get_candle_freshness :
        String → String → Time → CandleCache P → Result CandleFreshness
    get_candle_freshness instrument timeframe now c = do
      (key, _) ← resolve_key resolve instrument timeframe
      elim (lookup key c.memory_cache) [
        | some e ↦
            freshness_from z timeframe now e.last_completed_candle e.fetched_at e.source
              e.candle_count
        | none ↦ elim (lookup key c.cache_metadata) [
          | some m ↦
              freshness_from z timeframe now m.last_completed_candle m.fetched_at m.source
                m.candle_count
          | none ↦ ok (record {
            last_completed_candle = none;
            fetched_at = none;
            source = none;
            candle_count = 0;
            is_fresh = false;
            staleness = none;
          })
        ]
      ]

unfoldable pub clear_memory : {P : Type 0} → CandleCache P → CandleCache P
clear_memory c = record c { memory_cache = [] }
