-- ===== src/CandleCache/Invariant.antt =====
-- The invariant of the candle cache, and the operations that write it (providers/cache.py).
use oanda_v.Prelude.{
  String, ℕ, ◌-◌, ◌≤◌, ◌≡◌, refl, ap, sym, ◌∙◌, Option, none, some, Bool, true, false, string_key,
  pair_key, length, last?, Result, ok, raise, arith, inl, inr, length-drop,
}
use mathlib.Core.Path.{subst}
use mathlib.Core.Option
use oanda_v.Prelude.Dict.{Dict, lookup, insert, lookup-insert_inv}
use oanda_v.CandlePolicy.{Time}
use oanda_v.Frames.{Candle, sort_by_time, tail}
use oanda_v.Frames.Sorting.{IsSorted, sort_by_time-IsSorted, length-sort_by_time}
use oanda_v.CandleCache.{
  CacheKey, Frame, CacheEntry, CacheMetadata, CsvFile, CandleCache, save_candles, load_candles,
  persist_newest, persist_entry, load_file, load_found, load_csv_entry,
}

module _ {P : Type 0} where
  abbrev pub newest : Frame P → Option Time
  newest candles = elim (last? candles) [ none ↦ none | some c ↦ some c.time ]

  newest-some : (cs : Frame P) (d : Candle P) → last? cs ≡ some d → newest cs ≡ some d.time
  newest-some cs d h = rw (h, newest)

  -- The count and the newest time of an entry are those of its candles, oldest first.
  pub record IsCoherent (e : CacheEntry P) : Type 0 where
    pub sorted : IsSorted e.candles
    pub counted : e.candle_count ≡ length e.candles
    pub dated : newest e.candles ≡ some e.last_completed_candle

  -- Every entry in memory is coherent, and the metadata count the candles of the files.
  pub record IsValid (c : CandleCache P) : Type 0 where
    pub memory :
        (key : CacheKey) (e : CacheEntry P) → lookup key c.memory_cache ≡ some e → IsCoherent e
    pub files :
        (key : CacheKey) (f : CsvFile P) (m : CacheMetadata)
        → lookup key c.csv_store ≡ some f
        → lookup key c.cache_metadata ≡ some m
        → m.candle_count ≡ length f.candles

  -- What is kept by an operation that may hand out an entry.
  abbrev pub Hands : Result (CacheEntry P) × CandleCache P → Type 0
  Hands (ok e, c) = IsValid c × IsCoherent e
  Hands (raise _, c) = IsValid c

  abbrev pub Loads : Result (Option (CacheEntry P)) × CandleCache P → Type 0
  Loads (ok (some e), c) = IsValid c × IsCoherent e
  Loads (ok none, c) = IsValid c
  Loads (raise _, c) = IsValid c

  -- A frame that is handed out is sorted and no longer than asked for.
  abbrev pub Serves : ℕ → Result (Frame P) × CandleCache P → Type 0
  Serves count (ok candles, c) = IsValid c × IsSorted candles × (length candles ≤ count)
  Serves count (raise _, c) = IsValid c

  pub length-tail-le : (count : ℕ) (cs : Frame P) → length (tail count cs) ≤ count
  length-tail-le count cs = omega (arith, length-drop (length cs - count) cs)

  insert_memory :
      (key : CacheKey) (e : CacheEntry P) (d : Dict CacheKey (CacheEntry P))
      → ((k : CacheKey) (x : CacheEntry P) → lookup k d ≡ some x → IsCoherent x)
      → IsCoherent e
      → (k : CacheKey) (x : CacheEntry P) → lookup k (insert key e d) ≡ some x
      → IsCoherent x
  insert_memory key e d old h k x found = elim (lookup-insert_inv k key e x d found) [
    | inl (_, same) ↦ subst IsCoherent same h
    | inr (_, before) ↦ old k x before
  ]

  pub remember-IsValid :
      (key : CacheKey) (e : CacheEntry P) (c : CandleCache P)
      → IsValid c
      → IsCoherent e
      → IsValid (record c { memory_cache = insert key e c.memory_cache })
  remember-IsValid key e c v h = record {
    memory = insert_memory key e c.memory_cache v.memory h;
    files = v.files;
  }

  insert_files :
      (key : CacheKey) (f : CsvFile P) (m : CacheMetadata) (c : CandleCache P)
      → IsValid c
      → m.candle_count ≡ length f.candles
      → (k : CacheKey) (g : CsvFile P) (n : CacheMetadata)
      → lookup k (insert key f c.csv_store) ≡ some g
      → lookup k (insert key m c.cache_metadata) ≡ some n
      → n.candle_count ≡ length g.candles
  insert_files key f m c v h k g n hf hm = elim (lookup-insert_inv k key f g c.csv_store hf) [
    | inl (p, same_f) ↦ elim (lookup-insert_inv k key m n c.cache_metadata hm) [
      | inl (_, same_m) ↦
          ap (λ (x : CacheMetadata). x.candle_count) (sym same_m)
          ∙ h
          ∙ ap (λ (x : CsvFile P). length x.candles) same_f
      | inr (other, _) ↦ absurd (other p)
    ]
    | inr (other, old_f) ↦ elim (lookup-insert_inv k key m n c.cache_metadata hm) [
      | inl (p, _) ↦ absurd (other p)
      | inr (_, old_m) ↦ v.files k g n old_f old_m
    ]
  ]

  -- An entry that is made from a sorted frame and its newest candle.
  sorted_entry :
      (candles : Frame P) (last at : Time) (source : String)
      → newest (sort_by_time candles) ≡ some last
      → IsCoherent (record {
        candles = sort_by_time candles;
        last_completed_candle = last;
        fetched_at = at;
        source = source;
        candle_count = length (sort_by_time candles);
      })
  sorted_entry candles last at source h = record {
    sorted = sort_by_time-IsSorted candles;
    counted = refl;
    dated = h;
  }

  pub persist_entry-Hands :
      (key : CacheKey) (candles : Frame P) (source : String) (now : Time) (c : CandleCache P)
      → IsValid c
      → Hands (persist_entry key candles source now c)
  unfolding persist_entry persist_newest save_candles
  persist_entry-Hands key candles source now c v = go (last? (sort_by_time candles)) refl
    where
      go :
          (o : Option (Candle P))
          → last? (sort_by_time candles) ≡ o
          → Hands (persist_newest o key (sort_by_time candles) source now c)
      go none last = v
      go (some d) last =
          let h =
            sorted_entry candles d.time now source (newest-some (sort_by_time candles) d last) in
          (
            record {
              memory = insert_memory key _ c.memory_cache v.memory h;
              files = insert_files key _ _ c v (sym (length-sort_by_time (sort_by_time candles)));
            },
            h,
          )

  bootstrap_files :
      (key : CacheKey) (f : CsvFile P) (m : CacheMetadata) (c : CandleCache P)
      → IsValid c
      → lookup key c.csv_store ≡ some f
      → m.candle_count ≡ length f.candles
      → (k : CacheKey) (g : CsvFile P) (n : CacheMetadata) → lookup k c.csv_store ≡ some g
      → lookup k (insert key m c.cache_metadata) ≡ some n
      → n.candle_count ≡ length g.candles
  bootstrap_files key f m c v file h k g n hf hm =
      elim (lookup-insert_inv k key m n c.cache_metadata hm) [
        | inl (p, same) ↦
            let same_file : f ≡ g = cc (ap (λ x. lookup x c.csv_store) p) in
            ap (λ (x : CacheMetadata). x.candle_count) (sym same)
            ∙ h
            ∙ ap (λ (x : CsvFile P). length x.candles) same_file
        | inr (_, before) ↦ v.files k g n hf before
      ]

  pub load_csv_entry-Loads :
      (bootstrap : Bool) (key : CacheKey) (c : CandleCache P)
      → IsValid c
      → Loads (load_csv_entry bootstrap key c)
  unfolding load_csv_entry load_candles load_found load_file
  load_csv_entry-Loads b key c v = found (lookup key c.csv_store) refl
    where
      row :
          (f : CsvFile P) (m : Option CacheMetadata) (b : Bool) (o : Option (Candle P))
          → lookup key c.csv_store ≡ some f
          → lookup key c.cache_metadata ≡ m
          → last? (sort_by_time f.candles) ≡ o
          → Loads (load_file m b o key (sort_by_time f.candles) f.modified_at c)
      row f none false o file no_row last = v
      row f none true none file no_row last = v
      row f none true (some d) file no_row last = (
        record {
          memory = v.memory;
          files = bootstrap_files key f _ c v file (length-sort_by_time f.candles);
        },
        sorted_entry f.candles d.time f.modified_at "csv"
            (newest-some (sort_by_time f.candles) d last),
      )
      row f (some m) b none file has_row last = v
      row f (some m) b (some d) file has_row last = (
        v,
        record {
          sorted = sort_by_time-IsSorted f.candles;
          counted = v.files key f m file has_row ∙ sym (length-sort_by_time f.candles);
          dated = newest-some (sort_by_time f.candles) d last;
        },
      )

      found :
          (f : Option (CsvFile P))
          → lookup key c.csv_store ≡ f
          → Loads (
              load_found
                (Option.map (λ (f : CsvFile P). (sort_by_time f.candles, f.modified_at)) f)
                b
                key
                c)
      found none file = v
      found (some f) file =
          row f (lookup key c.cache_metadata) b (last? (sort_by_time f.candles)) file refl refl
