-- ===== src/Frames/Sorting.antt =====
-- Order and length of sorted frames.
use oanda_v.Prelude.{
  ℕ, zero, suc, ◌≤◌, ◌≡◌, refl, List, [], ◌∷◌, leb, length, drop, arith, All, Bool-cases, inl, inr,
  leb→le, leb_false→lt,
}
use oanda_v.Frames.{Candle, insert_by_time, sort_by_time}
use oanda_v.CandlePolicy.{Time}

module _ {P : Type 0} where
  -- Every candle begins at `t` or later.
  abbrev pub From : Time → List (Candle P) → Type 0
  From t cs = All (λ (c : Candle P). t ≤ c.time) cs

  -- Oldest first.
  abbrev pub IsSorted : List (Candle P) → Type 0
  IsSorted [] = Unit
  IsSorted (c ∷ cs) = From c.time cs × IsSorted cs

  From-le : (s t : Time) (cs : List (Candle P)) → s ≤ t → From t cs → From s cs
  From-le s t [] h f = tt
  From-le s t (c ∷ cs) h (f, fs) = (omega arith, From-le s t cs h fs)

  From-insert_by_time :
      (t : Time) (c : Candle P) (ds : List (Candle P))
      → t ≤ c.time
      → From t ds
      → From t (insert_by_time c ds)
  unfolding insert_by_time
  From-insert_by_time t c [] h f = (h, tt)
  From-insert_by_time t c (d ∷ ds) h (f, fs) = elim (Bool-cases (leb c.time d.time)) [
    | inl first ↦ rw first (h, (f, fs))
    | inr later ↦ rw later (f, From-insert_by_time t c ds h fs)
  ]

  insert_by_time-IsSorted :
      (c : Candle P) (ds : List (Candle P)) → IsSorted ds → IsSorted (insert_by_time c ds)
  unfolding insert_by_time
  insert_by_time-IsSorted c [] h = (tt, tt)
  insert_by_time-IsSorted c (d ∷ ds) (f, s) = elim (Bool-cases (leb c.time d.time)) [
    | inl first ↦ rw first ((leb→le _ _ first, From-le _ _ ds (leb→le _ _ first) f), (f, s))
    | inr later ↦ rw later (
      From-insert_by_time d.time c ds (omega (arith, leb_false→lt _ _ later)) f,
      insert_by_time-IsSorted c ds s,
    )
  ]

  pub sort_by_time-IsSorted : (cs : List (Candle P)) → IsSorted (sort_by_time cs)
  unfolding sort_by_time
  sort_by_time-IsSorted [] = tt
  sort_by_time-IsSorted (c ∷ cs) =
      insert_by_time-IsSorted c (sort_by_time cs) (sort_by_time-IsSorted cs)

  length-insert_by_time :
      (c : Candle P) (ds : List (Candle P)) → length (insert_by_time c ds) ≡ suc (length ds)
  unfolding insert_by_time
  length-insert_by_time c [] = refl
  length-insert_by_time c (d ∷ ds) = ground (arith, length-insert_by_time c ds)

  pub length-sort_by_time : (cs : List (Candle P)) → length (sort_by_time cs) ≡ length cs
  unfolding sort_by_time
  length-sort_by_time [] = refl
  length-sort_by_time (c ∷ cs) =
      omega (arith, length-insert_by_time c (sort_by_time cs), length-sort_by_time cs)

  pub drop-IsSorted : (n : ℕ) (cs : List (Candle P)) → IsSorted cs → IsSorted (drop n cs)
  drop-IsSorted zero cs s = s
  drop-IsSorted (suc n) [] s = tt
  drop-IsSorted (suc n) (c ∷ cs) (f, s) = drop-IsSorted n cs s

  -- A frame that is already sorted is left as it is.
  pub sort_by_time_of_IsSorted : (cs : List (Candle P)) → IsSorted cs → sort_by_time cs ≡ cs
  unfolding sort_by_time insert_by_time
  sort_by_time_of_IsSorted [] s = refl
  sort_by_time_of_IsSorted (c ∷ []) s = refl
  sort_by_time_of_IsSorted (c ∷ d ∷ ds) (f, s) =
      rw (sort_by_time_of_IsSorted (d ∷ ds) s) (ground arith)
