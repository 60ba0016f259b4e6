-- ===== src/Excursions/Coverage.antt =====
-- How well the stored samples cover the excursions of a trade (tracking/excursion_tracker.py).
use oanda_v.Prelude.{
  ℕ, ◌⊎◌, ◌*◌, ◌<◌, ◌≡◌, refl, ap, subst, ◌∙◌, String, true, false, none, some, List, [], ◌∷◌,
  nat_key, string_key, ◌==◌, test_cases, Bool-cases, Option-cases, inl, inr, Result, ok, raise, All,
  All-append, Any, Any-append_left, Any-append_right, arith,
}
use oanda_v.Prelude.Results.{Result-cases}
use oanda_v.Prelude.Dict.{lookup, lookup-insert}
use oanda_v.Contracts.Trade.{TradeRecord}
use oanda_v.Excursions.{
  PriceTick, ExcursionSample, ExcursionTracker, validate_excursion_sample, sample_of, distance,
  moved_since, store_sample, written_first, after_trade, build_sample, should_write, sample_trade,
  process_trades,
}

-- Two samples whose moves differ by less than the least move.
pub record Near (min_move : ℕ × ℕ) (s x : ExcursionSample) : Type 0 where
  pub adverse : distance s.adverse_pips x.adverse_pips * min_move.1 < min_move.0 * s.pip_size
  pub favorable : distance s.favorable_pips x.favorable_pips * min_move.1 < min_move.0 * s.pip_size

-- The sample itself, or one of the same trade that is near.
abbrev pub Covers : ℕ × ℕ → ExcursionSample → ExcursionSample → Type 0
Covers min_move s x = (x.trade_id ≡ s.trade_id) × ((x ≡ s) ⊎ Near min_move s x)

-- The stored samples are valid, and have the last ones among them.
pub record IsTracker (st : ExcursionTracker) : Type 0 where
  pub valid : All (λ s. validate_excursion_sample s ≡ ok tt) st.samples
  pub lasts :
      (k : String) (s : ExcursionSample)
      → lookup k st.last_written ≡ some s
      → (s.trade_id ≡ k) × Any (λ x. x ≡ s) st.samples

store_sample-IsTracker :
    (s : ExcursionSample) (st : ExcursionTracker)
    → validate_excursion_sample s ≡ ok tt
    → IsTracker st
    → IsTracker (store_sample s st)
unfolding store_sample
store_sample-IsTracker s st v h = record {
  valid = All-append _ st.samples (s ∷ []) h.valid (v, tt);
  lasts = λ k x l. elim (test_cases s.trade_id k) [
    | inl (t, p) ↦
        let same : s ≡ x = cc (rw (lookup-insert, t) at l) in
        (subst (λ y. y.trade_id ≡ k) same p, Any-append_right st.samples (s ∷ []) (Any.here same))
    | inr (t, _) ↦
        let (id, stored) = h.lasts k x (rw (lookup-insert, t) at l) in
        (id, Any-append_left st.samples (s ∷ []) stored)
  ];
}

-- The tracker stays well-formed, and keeps its samples.
abbrev pub Grows : ExcursionTracker → ExcursionTracker → Type 0
Grows st st' =
    IsTracker st'
    × ((x : ExcursionSample) → Any (λ y. y ≡ x) st.samples → Any (λ y. y ≡ x) st'.samples)

written_first-state :
    (s : ExcursionSample) (p : ExcursionTracker × Result (List ExcursionSample))
    → (written_first s p).0 ≡ p.0
unfolding written_first
written_first-state s (st, ok written) = refl
written_first-state s (st, raise e) = refl

written_first-ok :
    (s : ExcursionSample) (p : ExcursionTracker × Result (List ExcursionSample))
    (st : ExcursionTracker) (written : List ExcursionSample)
    → written_first s p ≡ (st, ok written)
    → (rest : List ExcursionSample) × (p ≡ (st, ok rest))
unfolding written_first
written_first-ok s (st', ok rest) st written h = (rest, cc)
written_first-ok s (st', raise e) st written h = absurd (cc)

-- A sample of the table that covers a sample.
abbrev pub Covered : ℕ × ℕ → ExcursionSample → List ExcursionSample → Type 0
Covered min_move s samples = (x : ExcursionSample) × Any (λ y. y ≡ x) samples × Covers min_move s x

module _ (get_pip_size : String → Result ℕ) (min_move : ℕ × ℕ) where
  pub build_sample-valid :
      (t : TradeRecord) (tick : PriceTick) (s : ExcursionSample)
      → build_sample get_pip_size min_move t tick ≡ ok s
      → (validate_excursion_sample s ≡ ok tt) × (s.trade_id ≡ t.trade_id)
  unfolding build_sample sample_of
  build_sample-valid t tick s h = elim (Result-cases (get_pip_size t.instrument)) [
    | inr (x, e) ↦ let h' = rw e at h in absurd (cc)
    | inl (n, e) ↦ elim (Result-cases (validate_excursion_sample (sample_of t tick n))) [
      | inr (x, v) ↦ let h' = rw (e, v) at h in absurd (cc)
      | inl (tt, v) ↦
          let same : sample_of t tick n ≡ s = cc (rw (e, v) at h) in
          (
            subst (λ y. validate_excursion_sample y ≡ ok tt) same v,
            subst (λ y. y.trade_id ≡ t.trade_id) same refl,
          )
    ]
  ]

  not_moved-Near :
      (s x : ExcursionSample) → moved_since min_move s (some x) ≡ false → Near min_move s x
  unfolding moved_since
  not_moved-Near s x h = record { adverse = ground arith; favorable = ground arith }

  sample_trade-some :
      (t : TradeRecord) (tick : PriceTick) (st : ExcursionTracker) (s : ExcursionSample)
      → sample_trade get_pip_size min_move t tick st ≡ ok (some s)
      → build_sample get_pip_size min_move t tick ≡ ok s
  unfolding sample_trade
  sample_trade-some t tick st s h = elim (Bool-cases (t.instrument == tick.instrument)) [
    | inr f ↦ let h' = rw f at h in absurd (cc)
    | inl e ↦ elim (Result-cases (build_sample get_pip_size min_move t tick)) [
      | inr (x, b) ↦ let h' = rw (e, b) at h in absurd (cc)
      | inl (s', b) ↦ elim (Bool-cases (should_write get_pip_size min_move s' st)) [
        | inl w ↦ let h' = rw (e, b, w) at h in let same : s' ≡ s = cc in b ∙ ap ok same
        | inr w ↦ let h' = rw (e, b, w) at h in absurd (cc)
      ]
    ]
  ]

  -- Where nothing is written for a trade of the tick's instrument, the last sample of the trade
  -- is near.
  sample_trade-none :
      (t : TradeRecord) (tick : PriceTick) (st : ExcursionTracker)
      → (t.instrument == tick.instrument) ≡ true
      → IsTracker st
      → sample_trade get_pip_size min_move t tick st ≡ ok none
      → (s : ExcursionSample) × (build_sample get_pip_size min_move t tick ≡ ok s)
        × Covered min_move s st.samples
  unfolding sample_trade should_write moved_since
  sample_trade-none t tick st e i h =
      elim (Result-cases (build_sample get_pip_size min_move t tick)) [
        | inr (x, b) ↦ let h' = rw (e, b) at h in absurd (cc)
        | inl (s, b) ↦ elim (Option-cases (lookup s.trade_id st.last_written)) [
          | inl l ↦ let h' = rw (e, b, l) at h in absurd (cc)
          | inr (x, l) ↦ elim (Bool-cases (moved_since min_move s (some x))) [
            | inl w ↦ let h' = rw (e, b, l, w) at h in absurd (cc)
            | inr w ↦
                let (id, stored) = i.lasts s.trade_id x l in
                (s, b, (x, stored, (id, inr (not_moved-Near s x w))))
          ]
        ]
      ]

  pub process_trades-Grows :
      (ts : List TradeRecord) (tick : PriceTick) (st : ExcursionTracker)
      → IsTracker st
      → Grows st (process_trades get_pip_size min_move ts tick st).0
  unfolding process_trades after_trade
  process_trades-Grows [] tick st i = (i, λ x h. h)
  process_trades-Grows (t ∷ ts) tick st i =
      elim (Result-cases (sample_trade get_pip_size min_move t tick st)) [
        | inr (x, e) ↦ rw e (i, λ x h. h)
        | inl (none, e) ↦ rw e (process_trades-Grows ts tick st i)
        | inl (some s, e) ↦
            let (v, _) = build_sample-valid t tick s (sample_trade-some t tick st s e) in
            let (i', kept) =
              process_trades-Grows ts tick (store_sample s st) (store_sample-IsTracker s st v i) in
            rw (e, written_first-state)
              (i', λ x h. kept x (unfold store_sample in Any-append_left st.samples (s ∷ []) h))
      ]

  pub after_Grows :
      (ts : List TradeRecord) (tick : PriceTick) (st st' : ExcursionTracker)
      (written : List ExcursionSample)
      → IsTracker st
      → process_trades get_pip_size min_move ts tick st ≡ (st', ok written)
      → Grows st st'
  after_Grows ts tick st st' written i h =
      subst (Grows st) (ap (λ p. p.0) h) (process_trades-Grows ts tick st i)

  pub Covered-Grows :
      (s : ExcursionSample) (st st' : ExcursionTracker)
      → Grows st st'
      → Covered min_move s st.samples
      → Covered min_move s st'.samples
  Covered-Grows s st st' (_, kept) (x, stored, c) = (x, kept x stored, c)

  -- The excursions of a trade at a tick are covered by the table.
  abbrev pub IsCovered : TradeRecord → PriceTick → ExcursionTracker → Type 0
  IsCovered t tick st =
      (s : ExcursionSample) × (build_sample get_pip_size min_move t tick ≡ ok s)
      × Covered min_move s st.samples

  IsCovered-none :
      (u : TradeRecord) (ts : List TradeRecord) (tick : PriceTick) (st st' : ExcursionTracker)
      (written : List ExcursionSample) (t : TradeRecord)
      → IsTracker st
      → sample_trade get_pip_size min_move u tick st ≡ ok none
      → process_trades get_pip_size min_move ts tick st ≡ (st', ok written)
      → Any (λ v. v ≡ t) (u ∷ ts)
      → (t.instrument == tick.instrument) ≡ true
      → (Any (λ v. v ≡ t) ts → IsCovered t tick st')
      → IsCovered t tick st'
  IsCovered-none u ts tick st st' written t i r h (Any.there a) e later = later a
  IsCovered-none u ts tick st st' written t i r h (Any.here p) e later =
      let r' = subst (λ v. sample_trade get_pip_size min_move v tick st ≡ ok none) p r in
      let (s, b, c) = sample_trade-none t tick st e i r' in
      (s, b, Covered-Grows s st st' (after_Grows ts tick st st' written i h) c)

  IsCovered-some :
      (u : TradeRecord) (ts : List TradeRecord) (tick : PriceTick) (st st' : ExcursionTracker)
      (written : List ExcursionSample) (t : TradeRecord) (s : ExcursionSample)
      → IsTracker (store_sample s st)
      → sample_trade get_pip_size min_move u tick st ≡ ok (some s)
      → process_trades get_pip_size min_move ts tick (store_sample s st) ≡ (st', ok written)
      → Any (λ v. v ≡ t) (u ∷ ts)
      → (Any (λ v. v ≡ t) ts → IsCovered t tick st')
      → IsCovered t tick st'
  unfolding store_sample
  IsCovered-some u ts tick st st' written t s i r h (Any.there a) later = later a
  IsCovered-some u ts tick st st' written t s i r h (Any.here p) later =
      let b =
        subst (λ v. build_sample get_pip_size min_move v tick ≡ ok s) p
          (sample_trade-some u tick st s r) in
      let own : Covered min_move s (store_sample s st).samples =
        (s, Any-append_right st.samples (s ∷ []) (Any.here refl), (refl, inl refl)) in
      (
        s,
        b,
        Covered-Grows s (store_sample s st) st'
            (after_Grows ts tick (store_sample s st) st' written i h) own,
      )

  pub process_trades-Covered :
      (ts : List TradeRecord) (tick : PriceTick) (st st' : ExcursionTracker)
      (written : List ExcursionSample) (t : TradeRecord)
      → IsTracker st
      → process_trades get_pip_size min_move ts tick st ≡ (st', ok written)
      → Any (λ u. u ≡ t) ts
      → (t.instrument == tick.instrument) ≡ true
      → IsCovered t tick st'
  unfolding process_trades after_trade
  process_trades-Covered [] tick st st' written t i h a e = elim a [ ]
  process_trades-Covered (u ∷ ts) tick st st' written t i h a e =
      elim (Result-cases (sample_trade get_pip_size min_move u tick st)) [
        | inr (x, r) ↦ let h' = rw r at h in absurd (cc)
        | inl (none, r) ↦
            IsCovered-none u ts tick st st' written t i r (rw r at h) a e
              (λ a'. process_trades-Covered ts tick st st' written t i (rw r at h) a' e)
        | inl (some s, r) ↦
            let (rest, h') = written_first-ok s _ st' written (rw r at h) in
            let (v, _) = build_sample-valid u tick s (sample_trade-some u tick st s r) in
            let i' = store_sample-IsTracker s st v i in
            IsCovered-some u ts tick st st' rest t s i' r h' a
              (λ a'. process_trades-Covered ts tick (store_sample s st) st' rest t i' h' a' e)
      ]
