-- ===== src/CandleCache/Refresh.antt =====
-- The two ways in which the candle cache asks the API (providers/cache.py).
use oanda_v.Prelude.{ℕ, ◌+◌, none, some, [], ◌∷◌, Result, ok, raise, Error}
use oanda_v.CandlePolicy.{Time}
use oanda_v.Frames.{combine, tail}
use oanda_v.CandleCache.{CacheKey, Frame, CacheEntry, CandleCache, CacheFetcher, persist_entry}

module _ {P : Type 0} where
  -- `self._tail(entry.candles, count)` after `_persist_entry`.
  abbrev pub persisted :
      ℕ → Result (CacheEntry P) × CandleCache P → Result (Frame P) × CandleCache P
  persisted count (ok entry, c) = (ok (tail count entry.candles), c)
  persisted count (raise e, c) = (raise e, c)

  -- `_replace_from_api` once the fetcher has answered.
  unfoldable pub replace_with :
      Result (Frame P) → CacheKey → ℕ → Time → CandleCache P → Result (Frame P) × CandleCache P
  replace_with (raise e) key count fetched_at c = (raise e, c)
  replace_with (ok []) key count fetched_at c = (raise Error.runtime_error, c)
  replace_with (ok (x ∷ xs)) key count fetched_at c =
      persisted count (persist_entry key (x ∷ xs) "oanda_api" fetched_at c)

  unfoldable pub replace_from_api :
      CacheKey → ℕ → CacheFetcher P → Time → CandleCache P → Result (Frame P) × CandleCache P
  replace_from_api key count fetcher fetched_at c =
      replace_with (fetcher key.0 key.1 count none) key count fetched_at c

  -- `_append_refresh` once the fetcher has answered. No newer candle is no error: the market may
  -- have been closed.
  unfoldable pub append_with :
      Result (Frame P)
      → CacheKey
      → ℕ
      → CacheEntry P
      → Time
      → CandleCache P
      → Result (Frame P) × CandleCache P
  append_with (raise e) key count existing fetched_at c = (raise e, c)
  append_with (ok []) key count existing fetched_at c = (ok (tail count existing.candles), c)
  append_with (ok (x ∷ xs)) key count existing fetched_at c =
      persisted count
        (persist_entry key (combine existing.candles (x ∷ xs)) "oanda_api" fetched_at c)

  -- `delta` is the duration of the timeframe, which the caller has looked up.
  unfoldable pub append_refresh :
      CacheKey
      → ℕ
      → ℕ
      → CacheEntry P
      → CacheFetcher P
      → Time
      → CandleCache P
      → Result (Frame P) × CandleCache P
  append_refresh key delta count existing fetcher fetched_at c =
      append_with (fetcher key.0 key.1 count (some (existing.last_completed_candle + delta))) key
        count existing fetched_at c
