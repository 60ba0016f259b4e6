-- ===== src/Excursions/Extremes.antt =====
-- The extremes that `get_trade_mae_mfe` reports (data/persistence/trade_store.py), against the
-- ticks that the tracker has seen (tracking/excursion_tracker.py).
use native.Mathlib.Nat.{mul-le-mul_right, add-mul}
use oanda_v.Prelude.{
  ℕ, ◌+◌, ◌*◌, ◌≤◌, ◌<◌, ◌≡◌, refl, sym, ap, subst, ◌∙◌, String, true, false, some, List, [], ◌∷◌,
  nat_key, string_key, ◌==◌, test_self, ltb, Bool-cases, inl, inr, all, filter, if◌then◌else◌,
  Result, ok, raise, All, Any, arith,
}
use oanda_v.Prelude.Steps.{Steps}
use oanda_v.Prelude.Sorting.{sort_by, Any-sort_by}
use oanda_v.Contracts.Trade.{TradeRecord}
use oanda_v.Journal.{Trades, list_open_trades}
use oanda_v.Excursions.{
  PriceTick, ExcursionSample, ExcursionTracker, MaeMfe, validate_excursion_sample, distance,
  list_excursion_samples, max_of, summarize, get_trade_mae_mfe, process_tick, build_sample,
}
use oanda_v.Excursions.Coverage.{
  IsTracker, Grows, Covered, process_trades-Covered, process_trades-Grows, Covered-Grows,
  after_Grows, build_sample-valid,
}

max_of-first :
    (field : ExcursionSample → ℕ) (best : ℕ) (xs : List ExcursionSample)
    → best ≤ max_of field best xs
unfolding max_of
max_of-first field best [] = omega arith
max_of-first field best (y ∷ xs) = elim (Bool-cases (ltb best (field y))) [
  | inl e ↦ rw e (ground (arith, max_of-first field (field y) xs))
  | inr e ↦ rw e (max_of-first field best xs)
]

max_of-upper :
    (field : ExcursionSample → ℕ) (best : ℕ) (x : ExcursionSample) (xs : List ExcursionSample)
    → Any (λ y. y ≡ x) xs
    → field x ≤ max_of field best xs
unfolding max_of
max_of-upper field best x [] h = elim h [ ]
max_of-upper field best x (y ∷ xs) (Any.there h) =
    max_of-upper field (if ltb best (field y) then field y else best) x xs h
max_of-upper field best x (y ∷ xs) (Any.here p) = elim (Bool-cases (ltb best (field y))) [
  | inl e ↦ rw (e, ← p) (max_of-first field (field y) xs)
  | inr e ↦ rw (e, ← p) (ground (arith, max_of-first field best xs))
]

-- What is reported is no less than any of the samples, and there is a report if there is a sample.
summarize-upper :
    (k : String) (x : ExcursionSample) (xs : List ExcursionSample)
    → Any (λ y. y ≡ x) xs
    → (m : MaeMfe) × (summarize k xs ≡ some m)
      × (x.adverse_pips ≤ m.mae_pips)
      × (x.favorable_pips ≤ m.mfe_pips)
unfolding summarize
summarize-upper k x [] h = elim h [ ]
summarize-upper k x (y ∷ xs) (Any.here p) = (
  _,
  refl,
  rw (← p) (max_of-first (λ (s : ExcursionSample). s.adverse_pips) y.adverse_pips xs),
  rw (← p) (max_of-first (λ (s : ExcursionSample). s.favorable_pips) y.favorable_pips xs),
)
summarize-upper k x (y ∷ xs) (Any.there h) = (
  _,
  refl,
  max_of-upper (λ (s : ExcursionSample). s.adverse_pips) y.adverse_pips x xs h,
  max_of-upper (λ (s : ExcursionSample). s.favorable_pips) y.favorable_pips x xs h,
)

abbrev of_trade : String → List ExcursionSample → List ExcursionSample
of_trade k samples = filter (λ (s : ExcursionSample). s.trade_id == k) samples

all_valid :
    (k : String) (xs : List ExcursionSample)
    → All (λ s. validate_excursion_sample s ≡ ok tt) xs
    → all
        (λ s. elim (validate_excursion_sample s) [ ok _ ↦ true | raise _ ↦ false ])
        (of_trade k xs)
      ≡ true
all_valid k [] h = refl
all_valid k (x ∷ xs) (v, h) = elim (Bool-cases (x.trade_id == k)) [
  | inl e ↦ rw e (rw v (all_valid k xs h))
  | inr e ↦ rw e (all_valid k xs h)
]

of_trade-Any :
    (k : String) (x : ExcursionSample) (xs : List ExcursionSample)
    → x.trade_id ≡ k
    → Any (λ y. y ≡ x) xs
    → Any (λ y. y ≡ x) (of_trade k xs)
of_trade-Any k x [] e h = elim h [ ]
of_trade-Any k x (y ∷ xs) e (Any.here p) =
    let e' : (y.trade_id == k) ≡ true =
      subst (λ n. (n == k) ≡ true) (sym (ap (λ (z : ExcursionSample). z.trade_id) p ∙ e))
        (test_self k) in
    rw e' (Any.here p)
of_trade-Any k x (y ∷ xs) e (Any.there h) = elim (Bool-cases (y.trade_id == k)) [
  | inl t ↦ rw t (Any.there (of_trade-Any k x xs e h))
  | inr t ↦ rw t (of_trade-Any k x xs e h)
]

get_trade_mae_mfe-upper :
    (k : String) (x : ExcursionSample) (xs : List ExcursionSample)
    → All (λ s. validate_excursion_sample s ≡ ok tt) xs
    → x.trade_id ≡ k
    → Any (λ y. y ≡ x) xs
    → (m : MaeMfe) × (get_trade_mae_mfe k xs ≡ some m)
      × (x.adverse_pips ≤ m.mae_pips)
      × (x.favorable_pips ≤ m.mfe_pips)
unfolding list_excursion_samples
get_trade_mae_mfe-upper k x xs v e h = rw (all_valid k xs v) (
    summarize-upper k x (sort_by (λ (s : ExcursionSample). s.sampled_at) (of_trade k xs)) (
      Any-sort_by (λ (s : ExcursionSample). s.sampled_at) (λ y. y ≡ x) (of_trade k xs)
        (of_trade-Any k x xs e h)))

-- A move that is near a smaller one.
near-le : (a b m n d : ℕ) → b ≤ m → distance a b * d < n → a * d ≤ m * d + n
near-le a b m n d l h =
    let far : a ≤ m + distance a b = omega arith in
    omega (arith, mul-le-mul_right d far, add-mul m (distance a b) d)

-- A tick that the tracker handles, whether it raises or not.
pub data TickStep (get_pip_size : String → Result ℕ) (min_move : ℕ × ℕ) (st st' : ExcursionTracker)
    : Type 0 where
  handled :
      (trades : Trades) (t : PriceTick) (r : Result (List ExcursionSample))
      → process_tick get_pip_size min_move trades t st ≡ (st', r)
      → TickStep get_pip_size min_move st st'

module _ (get_pip_size : String → Result ℕ) (min_move : ℕ × ℕ) where
  ticks-Grows :
      (st st' : ExcursionTracker)
      → Steps (TickStep get_pip_size min_move) st st'
      → IsTracker st
      → Grows st st'
  ticks-Grows st _ Steps.done i = (i, λ x h. h)
  ticks-Grows st st' (Steps.step {t = u} (TickStep.handled trades t r e) rs) i =
      let (i', kept) : Grows st u =
        subst (Grows st) (ap (λ p. p.0) e)
          (process_trades-Grows get_pip_size min_move (list_open_trades trades) t st i) in
      let (i'', kept') = ticks-Grows u st' rs i' in (i'', λ x h. kept' x (kept x h))

  -- What is reported covers a sample that the table covers.
  report-covers :
      (s : ExcursionSample) (k : String) (st : ExcursionTracker)
      → IsTracker st
      → s.trade_id ≡ k
      → Covered min_move s st.samples
      → (m : MaeMfe) × (get_trade_mae_mfe k st.samples ≡ some m)
        × (s.adverse_pips * min_move.1 ≤ m.mae_pips * min_move.1 + min_move.0 * s.pip_size)
        × (s.favorable_pips * min_move.1 ≤ m.mfe_pips * min_move.1 + min_move.0 * s.pip_size)
  report-covers s k st i e (x, stored, (id, inr near)) =
      let (m, found, a, f) = get_trade_mae_mfe-upper k x st.samples i.valid (id ∙ e) stored in
      (
        m,
        found,
        near-le s.adverse_pips x.adverse_pips m.mae_pips (min_move.0 * s.pip_size) min_move.1 a
            near.adverse,
        near-le s.favorable_pips x.favorable_pips m.mfe_pips (min_move.0 * s.pip_size) min_move.1 f
            near.favorable,
      )
  report-covers s k st i e (x, stored, (id, inl same)) =
      let (m, found, a, f) = get_trade_mae_mfe-upper k x st.samples i.valid (id ∙ e) stored in
      let a' : s.adverse_pips ≤ m.mae_pips =
        subst (λ (y : ExcursionSample). y.adverse_pips ≤ m.mae_pips) same a in
      let f' : s.favorable_pips ≤ m.mfe_pips =
        subst (λ (y : ExcursionSample). y.favorable_pips ≤ m.mfe_pips) same f in
      (
        m,
        found,
        omega (arith, mul-le-mul_right min_move.1 a'),
        omega (arith, mul-le-mul_right min_move.1 f'),
      )

  -- Once a tick of its instrument has been handled for an open trade, whatever ticks come later,
  -- the reported extremes fall short of the trade's excursions at that tick by at most the least
  -- move.
  pub get_trade_mae_mfe_bounds :
      (trades : Trades) (t : TradeRecord) (tick : PriceTick) (st st' st'' : ExcursionTracker)
      (written : List ExcursionSample)
      → IsTracker st
      → process_tick get_pip_size min_move trades tick st ≡ (st', ok written)
      → Any (λ u. u ≡ t) (list_open_trades trades)
      → t.instrument ≡ tick.instrument
      → Steps (TickStep get_pip_size min_move) st' st''
      → (s : ExcursionSample) × (build_sample get_pip_size min_move t tick ≡ ok s)
        × ((m : MaeMfe) × (get_trade_mae_mfe t.trade_id st''.samples ≡ some m)
            × (s.adverse_pips * min_move.1 ≤ m.mae_pips * min_move.1 + min_move.0 * s.pip_size)
            × (s.favorable_pips * min_move.1 ≤ m.mfe_pips * min_move.1 + min_move.0 * s.pip_size))
  get_trade_mae_mfe_bounds trades t tick st st' st'' written i h a e rs =
      let ts = list_open_trades trades in
      let matches : (t.instrument == tick.instrument) ≡ true =
        subst (λ n. (n == tick.instrument) ≡ true) (sym e) (test_self tick.instrument) in
      let (s, b, c) =
        process_trades-Covered get_pip_size min_move ts tick st st' written t i h a matches in
      let (_, id) = build_sample-valid get_pip_size min_move t tick s b in
      let grown =
        ticks-Grows st' st'' rs (after_Grows get_pip_size min_move ts tick st st' written i h).0 in
      (
        s,
        b,
        report-covers s t.trade_id st'' grown.0 id
            (Covered-Grows get_pip_size min_move s st' st'' grown c),
      )
