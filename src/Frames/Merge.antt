-- ===== src/Frames/Merge.antt =====
-- Merging newer candles into a frame: one candle per time, the newest wins.
use oanda_v.Prelude.{
  ◌≡◌, ◌≢◌, refl, ap, List, [], ◌∷◌, ◌++◌, leb, arith, All, Bool-cases, inl, inr, if◌then◌else◌,
  any, last?, test_self, nat_key, ◌==◌, Option, none, some, true, false, sym, ◌∙◌, Option-cases,
  ◌⊎◌,
}
use oanda_v.Frames.{Candle, insert_by_time, sort_by_time, drop_duplicates, combine}
use oanda_v.Frames.Sorting.{IsSorted, sort_by_time-IsSorted}
use oanda_v.CandlePolicy.{Time}

module _ {P : Type 0} where
  -- The candle that a frame holds for a time: the last of several.
  pub last_at : Time → List (Candle P) → Option (Candle P)
  last_at t [] = none
  last_at t (c ∷ cs) = elim (last_at t cs) [
    | none ↦ if c.time == t then some c else none
    | some d ↦ some d
  ]

  -- No candle has the time `t`.
  abbrev Avoids : Time → List (Candle P) → Type 0
  Avoids t cs = All (λ (c : Candle P). t ≢ c.time) cs

  -- All times differ.
  abbrev pub IsDistinct : List (Candle P) → Type 0
  IsDistinct [] = Unit
  IsDistinct (c ∷ cs) = Avoids c.time cs × IsDistinct cs

  Avoids-any : (t : Time) (cs : List (Candle P)) → any (λ d. d.time == t) cs ≡ false → Avoids t cs
  Avoids-any t [] h = tt
  Avoids-any t (c ∷ cs) h = ground (arith, Avoids-any t cs)

  Avoids-drop_duplicates :
      (t : Time) (cs : List (Candle P)) → Avoids t cs → Avoids t (drop_duplicates cs)
  unfolding drop_duplicates
  Avoids-drop_duplicates t [] h = tt
  Avoids-drop_duplicates t (c ∷ cs) (n, ns) = elim (Bool-cases (any (λ d. d.time == c.time) cs)) [
    | inl again ↦ rw again (Avoids-drop_duplicates t cs ns)
    | inr once ↦ rw once (n, Avoids-drop_duplicates t cs ns)
  ]

  drop_duplicates-IsDistinct : (cs : List (Candle P)) → IsDistinct (drop_duplicates cs)
  unfolding drop_duplicates
  drop_duplicates-IsDistinct [] = tt
  drop_duplicates-IsDistinct (c ∷ cs) = elim (Bool-cases (any (λ d. d.time == c.time) cs)) [
    | inl again ↦ rw again (drop_duplicates-IsDistinct cs)
    | inr once ↦ rw once (
      Avoids-drop_duplicates c.time cs (Avoids-any c.time cs once),
      drop_duplicates-IsDistinct cs,
    )
  ]

  last_at-any :
      (t : Time) (cs : List (Candle P))
      → any (λ d. d.time == t) cs ≡ true
      → (d : Candle P) × (last_at t cs ≡ some d)
  unfolding last_at
  last_at-any t [] h = absurd (cc)
  last_at-any t (c ∷ cs) h = elim (Option-cases (last_at t cs)) [
    | inl missing ↦ (c, ground (arith, last_at-any t cs))
    | inr (d, found) ↦ (d, rw found)
  ]

  last_at-drop_duplicates :
      (t : Time) (cs : List (Candle P)) → last_at t (drop_duplicates cs) ≡ last_at t cs
  unfolding drop_duplicates last_at
  last_at-drop_duplicates t [] = refl
  last_at-drop_duplicates t (c ∷ cs) =
      ground (arith, last_at-drop_duplicates t cs, last_at-any c.time cs)

  last_at-Avoids : (t : Time) (cs : List (Candle P)) → Avoids t cs → last_at t cs ≡ none
  unfolding last_at
  last_at-Avoids t [] n = refl
  last_at-Avoids t (c ∷ cs) (n, ns) = ground (arith, last_at-Avoids t cs)

  last_at-insert_by_time :
      (t : Time) (c : Candle P) (ds : List (Candle P))
      → Avoids c.time ds
      → last_at t (insert_by_time c ds) ≡ last_at t (c ∷ ds)
  unfolding last_at insert_by_time
  last_at-insert_by_time t c [] n = refl
  last_at-insert_by_time t c (d ∷ ds) (n, ns) =
      ground (arith, last_at-insert_by_time t c ds ns, last_at-Avoids c.time ds ns)

  Avoids-insert_by_time :
      (t : Time) (c : Candle P) (ds : List (Candle P))
      → t ≢ c.time
      → Avoids t ds
      → Avoids t (insert_by_time c ds)
  unfolding insert_by_time
  Avoids-insert_by_time t c [] n ns = (n, tt)
  Avoids-insert_by_time t c (d ∷ ds) n (m, ms) = elim (Bool-cases (leb c.time d.time)) [
    | inl first ↦ rw first (n, (m, ms))
    | inr later ↦ rw later (m, Avoids-insert_by_time t c ds n ms)
  ]

  Avoids-sort_by_time : (t : Time) (cs : List (Candle P)) → Avoids t cs → Avoids t (sort_by_time cs)
  unfolding sort_by_time
  Avoids-sort_by_time t [] n = tt
  Avoids-sort_by_time t (c ∷ cs) (n, ns) =
      Avoids-insert_by_time t c (sort_by_time cs) n (Avoids-sort_by_time t cs ns)

  insert_by_time-IsDistinct :
      (c : Candle P) (ds : List (Candle P))
      → Avoids c.time ds
      → IsDistinct ds
      → IsDistinct (insert_by_time c ds)
  unfolding insert_by_time
  insert_by_time-IsDistinct c [] n s = (tt, tt)
  insert_by_time-IsDistinct c (d ∷ ds) (n, ns) (a, s) = elim (Bool-cases (leb c.time d.time)) [
    | inl first ↦ rw first ((n, ns), (a, s))
    | inr later ↦
        rw later (
          Avoids-insert_by_time d.time c ds (λ e. n (sym e)) a,
          insert_by_time-IsDistinct c ds ns s,
        )
  ]

  sort_by_time-IsDistinct : (cs : List (Candle P)) → IsDistinct cs → IsDistinct (sort_by_time cs)
  unfolding sort_by_time
  sort_by_time-IsDistinct [] s = tt
  sort_by_time-IsDistinct (c ∷ cs) (n, s) =
      insert_by_time-IsDistinct c (sort_by_time cs) (Avoids-sort_by_time c.time cs n)
        (sort_by_time-IsDistinct cs s)

  last_at-sort_by_time :
      (t : Time) (cs : List (Candle P)) → IsDistinct cs → last_at t (sort_by_time cs) ≡ last_at t cs
  unfolding sort_by_time last_at
  last_at-sort_by_time t [] s = refl
  last_at-sort_by_time t (c ∷ cs) (n, s) =
      last_at-insert_by_time t c (sort_by_time cs) (Avoids-sort_by_time c.time cs n)
      ∙ ground (arith, last_at-sort_by_time t cs s)

  last_at-append :
      (t : Time) (cs ds : List (Candle P))
      → last_at t (cs ++ ds) ≡ elim (last_at t ds) [ none ↦ last_at t cs | some d ↦ some d ]
  unfolding last_at
  last_at-append t [] ds = ground arith
  last_at-append t (c ∷ cs) ds = ground (arith, last_at-append t cs ds)

  -- The frame that `_append_refresh` of the candle cache builds is sorted, has one candle for each
  -- time, and holds for each time the newer candle where there is one and the old one otherwise.
  pub combine_lem :
      (existing newer : List (Candle P))
      → IsSorted (combine existing newer)
        × IsDistinct (combine existing newer)
        × ((t : Time)
            → last_at t (combine existing newer)
              ≡ elim (last_at t newer) [ none ↦ last_at t existing | some d ↦ some d ])
  unfolding combine
  combine_lem existing newer =
      let kept = drop_duplicates (existing ++ newer) in
      let distinct = drop_duplicates-IsDistinct (existing ++ newer) in
      (
        sort_by_time-IsSorted kept,
        sort_by_time-IsDistinct kept distinct,
        λ t.
            last_at-sort_by_time t kept distinct
            ∙ last_at-drop_duplicates t (existing ++ newer)
            ∙ last_at-append t existing newer,
      )

  any_self : (x : Candle P) (xs : List (Candle P)) → any (λ d. d.time == x.time) (x ∷ xs) ≡ true
  any_self x xs = rw (test_self x.time)

  last?-cases : (cs : List (Candle P)) → (cs ≡ []) ⊎ ((d : Candle P) × (last? cs ≡ some d))
  last?-cases [] = inl refl
  last?-cases (c ∷ []) = inr (c, refl)
  last?-cases (c ∷ d ∷ cs) = elim (last?-cases (d ∷ cs)) [
    | inl e ↦ absurd (cc e)
    | inr found ↦ inr found
  ]

  -- A frame that newer candles were merged into is not empty.
  pub combine-last? :
      (existing : List (Candle P)) (x : Candle P) (xs : List (Candle P))
      → (d : Candle P) × (last? (combine existing (x ∷ xs)) ≡ some d)
  unfolding last_at
  combine-last? existing x xs = elim (last?-cases (combine existing (x ∷ xs))) [
    | inl e ↦
        let (d, found) = last_at-any x.time (x ∷ xs) (any_self x xs) in
        absurd (
          cc (
            ap (last_at x.time) (sym e)
            ∙ (combine_lem existing (x ∷ xs)).2 x.time
            ∙ ap (λ o. elim o [ none ↦ last_at x.time existing | some d ↦ some d ]) found))
    | inr found ↦ found
  ]
