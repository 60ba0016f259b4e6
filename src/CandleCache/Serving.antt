-- ===== src/CandleCache/Serving.antt =====
-- What the candle cache serves (providers/cache.py).
use oanda_v.Prelude.{
  ℕ, ◌+◌, ◌-◌, ◌≡◌, refl, String, Option, none, some, [], ◌∷◌, Bool, true, false, nat_key,
  string_key, pair_key, ◌==◌, leb, length, if◌then◌else◌, Result, ok, raise, Error,
}
use oanda_v.Prelude.Dict.{lookup, insert}
use oanda_v.CandlePolicy.{Time}
use oanda_v.CandlePolicy.Boundary.{Zone}
use oanda_v.Frames.{tail, combine}
use oanda_v.Frames.Sorting.{drop-IsSorted}
use oanda_v.CandleCache.{
  CacheKey, Frame, CacheEntry, CandleCache, CacheFetcher, is_cache_fresh, persist_entry,
  load_csv_entry,
}
use oanda_v.CandleCache.Refresh.{
  persisted, replace_with, replace_from_api, append_with, append_refresh,
}
use oanda_v.CandleCache.Requests.{
  resolve_key, serve_fresh, serve_csv, serve_memory, serve_request, get_candles,
}
use oanda_v.CandleCache.Invariant.{
  IsCoherent, IsValid, Hands, Loads, Serves, length-tail-le, remember-IsValid, persist_entry-Hands,
  load_csv_entry-Loads,
}

module _ {P : Type 0} where
  tail-Serves :
      (count : ℕ) (e : CacheEntry P) (c : CandleCache P)
      → IsValid c
      → IsCoherent e
      → Serves count (ok (tail count e.candles), c)
  tail-Serves count e c v h = (
    v,
    drop-IsSorted (length e.candles - count) e.candles h.sorted,
    length-tail-le count e.candles,
  )

  persisted-Serves :
      (count : ℕ) (r : Result (CacheEntry P) × CandleCache P)
      → Hands r
      → Serves count (persisted count r)
  persisted-Serves count (ok e, c) (v, h) = tail-Serves count e c v h
  persisted-Serves count (raise e, c) v = v

  Serves-if :
      (count : ℕ) (b : Bool) (r s : Result (Frame P) × CandleCache P)
      → Serves count r
      → Serves count s
      → Serves count (if b then r else s)
  Serves-if count true r s h k = h
  Serves-if count false r s h k = k

  module _ (key : CacheKey) (count : ℕ) (fetched_at : Time) where
    replace_with-Serves :
        (r : Result (Frame P)) (c : CandleCache P)
        → IsValid c
        → Serves count (replace_with r key count fetched_at c)
    unfolding replace_with
    replace_with-Serves (raise e) c v = v
    replace_with-Serves (ok []) c v = v
    replace_with-Serves (ok (x ∷ xs)) c v =
        persisted-Serves count (persist_entry key (x ∷ xs) "oanda_api" fetched_at c)
          (persist_entry-Hands key (x ∷ xs) "oanda_api" fetched_at c v)

    append_with-Serves :
        (r : Result (Frame P)) (entry : CacheEntry P) (c : CandleCache P)
        → IsValid c
        → IsCoherent entry
        → Serves count (append_with r key count entry fetched_at c)
    unfolding append_with
    append_with-Serves (raise e) entry c v h = v
    append_with-Serves (ok []) entry c v h = tail-Serves count entry c v h
    append_with-Serves (ok (x ∷ xs)) entry c v h =
        let merged = combine entry.candles (x ∷ xs) in
        persisted-Serves count (persist_entry key merged "oanda_api" fetched_at c)
          (persist_entry-Hands key merged "oanda_api" fetched_at c v)

    module _ (delta : ℕ) (fetcher : CacheFetcher P) where
      serve_fresh-Serves :
          (r : Result Bool) (entry : CacheEntry P) (c : CandleCache P)
          → IsValid c
          → IsCoherent entry
          → Serves count (serve_fresh r key delta count entry fetcher fetched_at c)
      unfolding serve_fresh replace_from_api append_refresh
      serve_fresh-Serves (raise e) entry c v h = v
      serve_fresh-Serves (ok true) entry c v h =
          Serves-if count (leb count entry.candle_count) (ok (tail count entry.candles), c)
            (replace_with (fetcher key.0 key.1 count none) key count fetched_at c)
            (tail-Serves count entry c v h)
            (replace_with-Serves (fetcher key.0 key.1 count none) c v)
      serve_fresh-Serves (ok false) entry c v h =
          append_with-Serves
            (fetcher key.0 key.1 count (some (entry.last_completed_candle + delta))) entry c v h

      module _ (z : Zone) (now : Time) where
        serve_csv-Serves :
            (r : Result (Option (CacheEntry P)) × CandleCache P)
            → Loads r
            → Serves count (serve_csv z key delta count fetcher now fetched_at r)
        unfolding serve_csv replace_from_api
        serve_csv-Serves (raise e, c) v = v
        serve_csv-Serves (ok none, c) v = replace_with-Serves (fetcher key.0 key.1 count none) c v
        serve_csv-Serves (ok (some entry), c) (v, h) =
            serve_fresh-Serves (is_cache_fresh z entry.last_completed_candle key.1 now) entry
              (record c { memory_cache = insert key entry c.memory_cache })
              (remember-IsValid key entry c v h) h

        serve_memory-Serves :
            (o : Option (CacheEntry P)) (c : CandleCache P)
            → IsValid c
            → lookup key c.memory_cache ≡ o
            → Serves count (serve_memory z o key delta count fetcher now fetched_at c)
        unfolding serve_memory
        serve_memory-Serves (some entry) c v found =
            serve_fresh-Serves (is_cache_fresh z entry.last_completed_candle key.1 now) entry c v
              (v.memory key entry found)
        serve_memory-Serves none c v found =
            serve_csv-Serves (load_csv_entry true key c) (load_csv_entry-Loads true key c v)

module _ {P : Type 0} (z : Zone) (resolve : String → Result String) where
  serve_request-Serves :
      (r : Result (CacheKey × ℕ)) (count : ℕ) (fetcher : CacheFetcher P) (now fetched_at : Time)
      (c : CandleCache P)
      → IsValid c
      → Serves count (serve_request z r count fetcher now fetched_at c)
  unfolding serve_request
  serve_request-Serves (raise e) count fetcher now fetched_at c v = v
  serve_request-Serves (ok (key, delta)) count fetcher now fetched_at c v =
      Serves-if count (count == 0) (raise Error.value_error, c)
        (serve_memory z (lookup key c.memory_cache) key delta count fetcher now fetched_at c) v
        (serve_memory-Serves key count fetched_at delta fetcher z now (lookup key c.memory_cache) c
          v refl)

  -- Whatever the memory, the files and the fetcher hold, `get_candles` keeps the invariant of the
  -- cache, also where it raises, and the frame that it returns is sorted, oldest first, and has at
  -- most `count` candles.
  pub get_candles-Serves :
      (instrument timeframe : String) (count : ℕ) (fetcher : CacheFetcher P) (now fetched_at : Time)
      (c : CandleCache P)
      → IsValid c
      → Serves count (get_candles z resolve instrument timeframe count fetcher now fetched_at c)
  unfolding get_candles
  get_candles-Serves instrument timeframe count fetcher now fetched_at c v =
      serve_request-Serves (resolve_key resolve instrument timeframe) count fetcher now fetched_at c
        v
