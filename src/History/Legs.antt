-- ===== src/History/Legs.antt =====
-- The legs of an order fill and the events that are made of them (journal/trade_normalizer.py).
use oanda_v.Prelude.{
  ℕ, suc, ◌+◌, ◌<◌, ok, ◌≡◌, ◌≢◌, inl, inr, refl, sym, ◌∙◌, ap, String, Option, none, some, List,
  [], ◌∷◌, ◌++◌, map, length, All, arith,
}
use oanda_v.Prelude.Int.{ℤ, pos, abs, ◌+ℤ◌, +ℤ_parts, eq_of_parts}
use oanda_v.Prelude.Results.{Result-cases}
use oanda_v.History.{
  FilledTrade, OrderFill, Leg, TradeHistoryEvent, event_of, validate_event, event_checked,
  opened_leg, closed_leg, optional, events_of, total_abs,
}
use oanda_v.History.Commission.{sum, sum-cons}

-- The events that the legs and allocations would give without their contract.
abbrev pub built : OrderFill → List Leg → List ℤ → List TradeHistoryEvent
built fill (leg ∷ legs) (c ∷ cs) = event_of fill leg c ∷ built fill legs cs
built fill _ _ = []

zero_plus : (a : ℤ) → pos 0 +ℤ a ≡ a
zero_plus a = eq_of_parts _ _ (omega (arith, +ℤ_parts (pos 0) a))

validate_event-units : (e : TradeHistoryEvent) → validate_event e ≡ ok tt → abs e.units ≢ 0
unfolding validate_event
validate_event-units e h = ground arith

-- Events that are made are the ones that the legs and allocations give, and have units.
pub events_of-built :
    (fill : OrderFill) (legs : List Leg) (cs : List ℤ) (es : List TradeHistoryEvent)
    → events_of fill legs cs ≡ ok es
    → (es ≡ built fill legs cs) × All (λ (e : TradeHistoryEvent). abs e.units ≢ 0) es
unfolding events_of event_checked
events_of-built fill [] cs es h = let e : es ≡ [] = cc in (e, rw e tt)
events_of-built fill (l ∷ legs) [] es h = let e : es ≡ [] = cc in (e, rw e tt)
events_of-built fill (l ∷ legs) (c ∷ cs) es h =
    elim (Result-cases (validate_event (event_of fill l c))) [
      | inr (x, v) ↦ let h' = rw v at h in absurd (cc)
      | inl (tt, v) ↦ elim (Result-cases (events_of fill legs cs)) [
        | inr (x, r) ↦ let h' = rw (v, r) at h in absurd (cc)
        | inl (rest, r) ↦
            let (same, units) = events_of-built fill legs cs rest r in
            let e : es ≡ event_of fill l c ∷ rest = cc (rw (v, r) at h) in
            (
              e ∙ ap (λ xs. event_of fill l c ∷ xs) same,
              rw e (validate_event-units (event_of fill l c) v, units),
            )
      ]
    ]

pub built-units :
    (fill : OrderFill) (legs : List Leg) (cs : List ℤ)
    → 0 < length (built fill legs cs)
    → All (λ (e : TradeHistoryEvent). abs e.units ≢ 0) (built fill legs cs)
    → total_abs (map (λ (l : Leg). l.units) legs) ≢ 0
unfolding total_abs
built-units fill [] cs some_event h = absurd (omega arith)
built-units fill (l ∷ legs) [] some_event h = absurd (omega arith)
built-units fill (l ∷ legs) (c ∷ cs) some_event (units, h) = λ e. units (omega arith)

pub built-length :
    (fill : OrderFill) (legs : List Leg) (cs : List ℤ)
    → length cs ≡ length legs
    → length (built fill legs cs) ≡ length legs
built-length fill [] cs h = refl
built-length fill (l ∷ legs) [] h = absurd (omega arith)
built-length fill (l ∷ legs) (c ∷ cs) h = ap suc (built-length fill legs cs (omega arith))

-- The trades that a fill closes or reduces.
abbrev pub closings : OrderFill → List FilledTrade
closings fill = fill.trades_closed ++ elim fill.trade_reduced [ none ↦ [] | some t ↦ t ∷ [] ]

abbrev pub openings : OrderFill → ℕ
openings fill = elim fill.trade_opened [ none ↦ 0 | some _ ↦ 1 ]

module _ (p : Leg → ℤ) (q : FilledTrade → ℤ) (opens : (t : FilledTrade) → p (opened_leg t) ≡ pos 0)
    (closes : (event_type : String) (t : FilledTrade) → p (closed_leg event_type t) ≡ q t) where
  closed-sum :
      (ts : List FilledTrade) (r : Option FilledTrade)
      → sum (map p (map (closed_leg "CLOSE") ts ++ optional (closed_leg "PARTIAL_CLOSE") r))
        ≡ sum (map q (ts ++ elim r [ none ↦ [] | some t ↦ t ∷ [] ]))
  closed-sum [] none = refl
  closed-sum [] (some t) = ap (λ x. sum (x ∷ [])) (closes "PARTIAL_CLOSE" t)
  closed-sum (t ∷ ts) r =
      let rest = map (closed_leg "CLOSE") ts ++ optional (closed_leg "PARTIAL_CLOSE") r in
      sum-cons _ _
      ∙ ap (λ x. x +ℤ sum (map p rest)) (closes "CLOSE" t)
      ∙ ap (λ x. q t +ℤ x) (closed-sum ts r)
      ∙ sym (sum-cons _ _)

  pub legs-sum :
      (opened : Option FilledTrade) (ts : List FilledTrade) (r : Option FilledTrade)
      → sum (
          map p (
            (optional opened_leg opened ++ map (closed_leg "CLOSE") ts)
            ++ optional (closed_leg "PARTIAL_CLOSE") r))
        ≡ sum (map q (ts ++ elim r [ none ↦ [] | some t ↦ t ∷ [] ]))
  legs-sum none ts r = closed-sum ts r
  legs-sum (some o) ts r =
      let rest = map (closed_leg "CLOSE") ts ++ optional (closed_leg "PARTIAL_CLOSE") r in
      sum-cons _ _
      ∙ ap (λ x. x +ℤ sum (map p rest)) (opens o)
      ∙ zero_plus (sum (map p rest))
      ∙ closed-sum ts r

closed-length :
    (ts : List FilledTrade) (r : Option FilledTrade)
    → length (map (closed_leg "CLOSE") ts ++ optional (closed_leg "PARTIAL_CLOSE") r)
      ≡ length (ts ++ elim r [ none ↦ [] | some t ↦ t ∷ [] ])
closed-length [] none = refl
closed-length [] (some t) = refl
closed-length (t ∷ ts) r = ap suc (closed-length ts r)

pub legs-length :
    (opened : Option FilledTrade) (ts : List FilledTrade) (r : Option FilledTrade)
    → length (
        (optional opened_leg opened ++ map (closed_leg "CLOSE") ts)
        ++ optional (closed_leg "PARTIAL_CLOSE") r)
      ≡ elim opened [ none ↦ 0 | some _ ↦ 1 ]
        + length (ts ++ elim r [ none ↦ [] | some t ↦ t ∷ [] ])
legs-length none ts r = closed-length ts r ∙ omega arith
legs-length (some o) ts r = omega (arith, closed-length ts r)
