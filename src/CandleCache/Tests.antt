-- ===== src/CandleCache/Tests.antt =====
-- The candle cache at concrete inputs. Prices are numbers, and every name is taken as it is.
use oanda_v.Prelude.{
  ℕ, ◌+◌, ◌*◌, ◌/◌, ◌≡◌, refl, String, none, some, [], ◌∷◌, string_key, pair_key, Result, ok, raise,
  Error, arith,
}
use oanda_v.Prelude.Dict.{lookup, insert}
use oanda_v.CandlePolicy.{Time, hours, timeframe_deltas, get_timeframe_delta}
use oanda_v.CandlePolicy.Boundary.{
  Zone, daily_anchor_for, floor_to_day_aligned, floor_time_to_boundary, timeframe_floor_rules,
  day_aligned_timeframes, get_last_completed_candle_start, calculate_candle_staleness,
}
use oanda_v.Frames.{Candle, insert_by_time, sort_by_time, drop_duplicates, combine, tail}
use oanda_v.Frames.Sorting.{IsSorted}
use oanda_v.Frames.Merge.{last_at, IsDistinct}
use oanda_v.CandleCache.{
  CacheKey, Frame, CacheEntry, CandleCache, CacheFetcher, is_cache_fresh, save_candles,
  load_candles, persist_newest, persist_entry, load_file, load_found, load_csv_entry,
}
use oanda_v.CandleCache.Refresh.{replace_with, replace_from_api, append_with, append_refresh}
use oanda_v.CandleCache.Requests.{serve_fresh, serve_csv, serve_memory, serve_request, get_candles}
use oanda_v.CandleCache.Invariant.{IsValid, Serves}
use oanda_v.CandleCache.Serving.{get_candles-Serves}
use oanda_v.CandleCache.Memory.{get_candles-refreshed}

program : Unit {0}
unfolding lookup insert timeframe_deltas get_timeframe_delta daily_anchor_for floor_to_day_aligned
    floor_time_to_boundary timeframe_floor_rules day_aligned_timeframes
    get_last_completed_candle_start calculate_candle_staleness insert_by_time sort_by_time
    drop_duplicates combine is_cache_fresh save_candles load_candles persist_newest persist_entry
    load_file load_found load_csv_entry replace_with replace_from_api append_with append_refresh
    serve_fresh serve_csv serve_memory serve_request get_candles
program = tt

abbrev utc : Zone
utc = record { local_date = λ t. t / hours 24 + 1; local_anchor = λ d. d * hours 24 }

abbrev any_name : String → Result String
any_name s = ok s

abbrev bar : Time → ℕ → Candle ℕ
bar t p = record { time = t; open_price = p; high = p; low = p; close = p; tick_volume = 1 }

abbrev key : CacheKey
key = ("EUR_USD", "H1")

abbrev cached : CacheEntry ℕ
cached = record {
  candles = bar (hours 4) 10 ∷ bar (hours 5) 11 ∷ [];
  last_completed_candle = hours 5;
  fetched_at = hours 6;
  source = "oanda_api";
  candle_count = 2;
}

abbrev cache : CandleCache ℕ
cache = record { memory_cache = (key, cached) ∷ []; csv_store = []; cache_metadata = [] }

abbrev newer : Frame ℕ
newer = bar (hours 6) 12 ∷ bar (hours 5) 13 ∷ []

abbrev answer : Result (Frame ℕ) → CacheFetcher ℕ
answer r instrument timeframe count since = r

served :
    ((get_candles utc any_name "EUR_USD" "H1" 2 (answer (ok newer)) (hours 7) (hours 8) cache).0
      ≡ ok (bar (hours 5) 13 ∷ bar (hours 6) 12 ∷ []))
    × ((get_candles utc any_name "EUR_USD" "H1" 0 (answer (ok newer)) (hours 7) (hours 8) cache).0
        ≡ raise Error.value_error)
unfolding program
served = (refl, refl)

empty-IsValid : IsValid {P = ℕ} (record { memory_cache = []; csv_store = []; cache_metadata = [] })
unfolding program
empty-IsValid = record { memory = λ k e h. (cc); files = λ k f m h. (cc) }

get_candles-Serves_example : Serves 2 (
    get_candles utc any_name "EUR_USD" "H1" 2
      (answer (ok newer))
      (hours 7)
      (hours 8)
      (record { memory_cache = []; csv_store = []; cache_metadata = [] }))
get_candles-Serves_example =
    get_candles-Serves utc any_name "EUR_USD" "H1" 2 (answer (ok newer)) (hours 7) (hours 8)
      (record { memory_cache = []; csv_store = []; cache_metadata = [] }) empty-IsValid

get_candles-refreshed_example :
    (merged : CacheEntry ℕ) × (after : CandleCache ℕ) × (get_candles utc any_name "EUR_USD" "H1" 2
        (answer (ok newer))
        (hours 7)
        (hours 8)
        cache
      ≡ (ok (tail 2 merged.candles), after))
    × (lookup key after.memory_cache ≡ some merged)
    × (lookup key after.csv_store
        ≡ some (record { candles = merged.candles; modified_at = hours 8 }))
    × IsSorted merged.candles
    × IsDistinct merged.candles
    × ((t : Time)
        → last_at t merged.candles
          ≡ elim (last_at t newer) [ none ↦ last_at t cached.candles | some d ↦ some d ])
unfolding program
get_candles-refreshed_example =
    get_candles-refreshed utc any_name "EUR_USD" "H1" key (hours 1) 2 (hours 7) (hours 8) cache
      cached refl refl (answer (ok newer)) (bar (hours 6) 12) (bar (hours 5) 13 ∷ []) (omega arith)
      refl refl
