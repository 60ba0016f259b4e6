-- ===== src/Statistics/Balance.antt =====
-- The counts and the drawdown of `_build_summary` (journal/trade_stats_service.py) against the
-- balance curve.
use oanda_v.Prelude.{
  zero, suc, suc, ◌+◌, ◌≡◌, refl, sym, ap, subst, ◌∙◌, ◌⊎◌, inl, inr, some, List, [], ◌∷◌, ◌++◌,
  map, filter, length, Bool-cases, arith,
}
use oanda_v.Prelude.Int.{ℤ, pos, negsuc, ◌+ℤ◌, ◌-ℤ◌, ◌≤ℤ◌, ltb_ℤ, +ℤ_parts, -ℤ_parts, eq_of_parts}
use oanda_v.Contracts.Trade.{TradeRecord}
use oanda_v.Statistics.{
  Drawdown, net_pnl, sum, larger, draw, draw_all, max_drawdown, is_win, is_loss, is_breakeven,
  build_summary,
}

-- The fall of the balance over a run of trades.
abbrev pub fall : List ℤ → ℤ
fall nets = pos 0 -ℤ sum nets

draw_grows :
    (x : ℤ) (d : Drawdown)
    → (d.peak ≤ℤ (draw x d).peak)
      × (d.max_drawdown ≤ℤ (draw x d).max_drawdown)
      × ((draw x d).cumulative ≤ℤ (draw x d).peak)
      × ((draw x d).peak -ℤ (draw x d).cumulative ≤ℤ (draw x d).max_drawdown)
unfolding draw
draw_grows x d = (ground arith, ground arith, ground arith, ground arith)

draw_all_grows : (xs : List ℤ) (d : Drawdown) → d.max_drawdown ≤ℤ (draw_all xs d).max_drawdown
unfolding draw_all
draw_all_grows [] d = ground arith
draw_all_grows (x ∷ xs) d =
    let (_, g, _, _) = draw_grows x d in ground (arith, draw_all_grows xs (draw x d))

fall_end : (p c m r : ℤ) → p -ℤ c ≤ℤ m → m ≤ℤ r → p -ℤ (c +ℤ pos 0) ≤ℤ r
fall_end p c m r h l = omega (arith, -ℤ_parts p c, -ℤ_parts p (c +ℤ pos 0), +ℤ_parts c (pos 0))

fall_step : (p p' c y s r : ℤ) → p ≤ℤ p' → p' -ℤ ((c +ℤ y) +ℤ s) ≤ℤ r → p -ℤ (c +ℤ (y +ℤ s)) ≤ℤ r
fall_step p p' c y s r l h = omega (
  arith,
  -ℤ_parts p' ((c +ℤ y) +ℤ s),
  +ℤ_parts (c +ℤ y) s,
  +ℤ_parts c y,
  -ℤ_parts p (c +ℤ (y +ℤ s)),
  +ℤ_parts c (y +ℤ s),
  +ℤ_parts y s,
)

fall_inside : (p c s r : ℤ) → c ≤ℤ p → p -ℤ (c +ℤ s) ≤ℤ r → pos 0 -ℤ s ≤ℤ r
fall_inside p c s r l h = omega (arith, -ℤ_parts p (c +ℤ s), +ℤ_parts c s, -ℤ_parts (pos 0) s)

fall_from_peak : (c s : ℤ) → c -ℤ (c +ℤ s) ≡ pos 0 -ℤ s
fall_from_peak c s =
    eq_of_parts _ _ (omega (arith, -ℤ_parts c (c +ℤ s), +ℤ_parts c s, -ℤ_parts (pos 0) s))

fall_later : (p c y s : ℤ) → p -ℤ ((c +ℤ y) +ℤ s) ≡ p -ℤ (c +ℤ (y +ℤ s))
fall_later p c y s = eq_of_parts _ _ (
    omega (
      arith,
      -ℤ_parts p ((c +ℤ y) +ℤ s),
      +ℤ_parts (c +ℤ y) s,
      +ℤ_parts c y,
      -ℤ_parts p (c +ℤ (y +ℤ s)),
      +ℤ_parts c (y +ℤ s),
      +ℤ_parts y s,
    ))

fall_once : (p c y : ℤ) → p -ℤ (c +ℤ y) ≡ p -ℤ (c +ℤ (y +ℤ pos 0))
fall_once p c y = eq_of_parts _ _ (
    omega (
      arith,
      -ℤ_parts p (c +ℤ y),
      +ℤ_parts c y,
      -ℤ_parts p (c +ℤ (y +ℤ pos 0)),
      +ℤ_parts c (y +ℤ pos 0),
      +ℤ_parts y (pos 0),
    ))

fall_none : (c : ℤ) → c -ℤ c ≡ pos 0 -ℤ pos 0
fall_none c = eq_of_parts _ _ (omega (arith, -ℤ_parts c c, -ℤ_parts (pos 0) (pos 0)))

-- The fall from the peak to the end of a run of trades at the start.
first_falls :
    (ys zs : List ℤ) (d : Drawdown)
    → d.peak -ℤ d.cumulative ≤ℤ d.max_drawdown
    → d.peak -ℤ (d.cumulative +ℤ sum ys) ≤ℤ (draw_all (ys ++ zs) d).max_drawdown
unfolding draw_all draw sum
first_falls [] zs d h = fall_end d.peak d.cumulative d.max_drawdown _ h (draw_all_grows zs d)
first_falls (y ∷ ys) zs d h =
    let (p, _, _, e) = draw_grows y d in
    fall_step d.peak (draw y d).peak d.cumulative y (sum ys) _ p (first_falls ys zs (draw y d) e)

falls :
    (us ys zs : List ℤ) (d : Drawdown)
    → d.cumulative ≤ℤ d.peak
    → d.peak -ℤ d.cumulative ≤ℤ d.max_drawdown
    → fall ys ≤ℤ (draw_all (us ++ ys ++ zs) d).max_drawdown
unfolding draw_all
falls [] ys zs d c h = fall_inside d.peak d.cumulative (sum ys) _ c (first_falls ys zs d h)
falls (u ∷ us) ys zs d c h = let (_, _, c', h') = draw_grows u d in falls us ys zs (draw u d) c' h'

-- Where the largest fall comes from.
data Reached (xs : List ℤ) (d : Drawdown) (r : ℤ) : Type 0 where
  old : r ≡ d.max_drawdown → Reached xs d r
  first : (ys zs : List ℤ) → xs ≡ ys ++ zs → r ≡ d.peak -ℤ (d.cumulative +ℤ sum ys) → Reached xs d r
  inner : (us ys zs : List ℤ) → xs ≡ us ++ ys ++ zs → r ≡ fall ys → Reached xs d r

larger_cases : (a b : ℤ) → (larger a b ≡ a) ⊎ (larger a b ≡ b)
larger_cases a b = elim (Bool-cases (ltb_ℤ a b)) [
  | inl e ↦ inr (rw e refl)
  | inr e ↦ inl (rw e refl)
]

Reached-draw :
    (x : ℤ) (xs : List ℤ) (d : Drawdown) (r : ℤ) → Reached xs (draw x d) r → Reached (x ∷ xs) d r
unfolding draw sum
Reached-draw x xs d r (Reached.inner us ys zs e f) =
    Reached.inner (x ∷ us) ys zs (ap (λ l. x ∷ l) e) f
Reached-draw x xs d r (Reached.first ys zs e f) = elim (larger_cases d.peak (d.cumulative +ℤ x)) [
  | inl p ↦ Reached.first (x ∷ ys) zs (ap (λ l. x ∷ l) e) (
      f
      ∙ ap (λ q. q -ℤ ((d.cumulative +ℤ x) +ℤ sum ys)) p
      ∙ fall_later d.peak d.cumulative x (sum ys))
  | inr p ↦ Reached.inner (x ∷ []) ys zs (ap (λ l. x ∷ l) e) (
      f
      ∙ ap (λ q. q -ℤ ((d.cumulative +ℤ x) +ℤ sum ys)) p
      ∙ fall_from_peak (d.cumulative +ℤ x) (sum ys))
]
Reached-draw x xs d r (Reached.old e) =
    let c = d.cumulative +ℤ x in
    elim (larger_cases d.max_drawdown (larger d.peak c -ℤ c)) [
      | inl m ↦ Reached.old (e ∙ m)
      | inr m ↦ elim (larger_cases d.peak c) [
        | inl p ↦
            Reached.first (x ∷ []) xs refl
              (e ∙ m ∙ ap (λ q. q -ℤ c) p ∙ fall_once d.peak d.cumulative x)
        | inr p ↦ Reached.inner [] [] (x ∷ xs) refl (e ∙ m ∙ ap (λ q. q -ℤ c) p ∙ fall_none c)
      ]
    ]

draw_all-Reached : (xs : List ℤ) (d : Drawdown) → Reached xs d (draw_all xs d).max_drawdown
unfolding draw_all
draw_all-Reached [] d = Reached.old refl
draw_all-Reached (x ∷ xs) d = Reached-draw x xs d _ (draw_all-Reached xs (draw x d))

-- A run of trades, somewhere in the list.
abbrev pub IsRun : List ℤ → List ℤ → Type 0
IsRun nets ys = (us : List ℤ) × (zs : List ℤ) × (nets ≡ us ++ ys ++ zs)

-- The largest fall over the runs of trades.
abbrev pub IsLargestFall : List ℤ → ℤ → Type 0
IsLargestFall nets m =
    ((ys : List ℤ) → IsRun nets ys → fall ys ≤ℤ m) × ((ys : List ℤ) × IsRun nets ys × (m ≡ fall ys))

abbrev start : Drawdown
start = record { cumulative = pos 0; peak = pos 0; max_drawdown = pos 0 }

attained : (xs : List ℤ) (r : ℤ) → Reached xs start r → (ys : List ℤ) × IsRun xs ys × (r ≡ fall ys)
unfolding sum ◌-ℤ◌
attained xs r (Reached.old e) = ([], ([], xs, refl), e)
attained xs r (Reached.inner us ys zs e f) = (ys, (us, zs, e), f)
attained xs r (Reached.first ys zs e f) = (ys, ([], zs, e), f ∙ fall_from_peak (pos 0) (sum ys))

max_drawdown-IsLargestFall :
    (t : TradeRecord) (trades : List TradeRecord)
    → (m : ℤ) × (max_drawdown (t ∷ trades) ≡ some m) × IsLargestFall (map net_pnl (t ∷ trades)) m
unfolding max_drawdown
max_drawdown-IsLargestFall t trades =
    let nets = map net_pnl (t ∷ trades) in
    (
      _,
      refl,
      (
        (λ ys run.
            let (us, zs, e) = run in
            subst (λ l. fall ys ≤ℤ (draw_all l start).max_drawdown) (sym e)
              (falls us ys zs start (omega arith) (omega (arith, -ℤ_parts (pos 0) (pos 0))))),
        attained nets _ (draw_all-Reached nets start),
      ),
    )

counts_add :
    (xs : List ℤ)
    → length (filter is_win xs) + length (filter is_loss xs) + length (filter is_breakeven xs)
      ≡ length xs
counts_add [] = refl
counts_add (pos zero ∷ xs) = ground (arith, counts_add xs)
counts_add (pos (suc n) ∷ xs) = ground (arith, counts_add xs)
counts_add (negsuc n ∷ xs) = ground (arith, counts_add xs)

length-map : (trades : List TradeRecord) → length (map net_pnl trades) ≡ length trades
length-map [] = refl
length-map (t ∷ trades) = ap suc (length-map trades)

-- In the summary of at least one trade each trade is counted as a win, a loss or breakeven, and
-- as one of them only. The maximum drawdown is the largest fall of the balance over a run of
-- trades that follow one another: it is no less than the fall over any run, and is the fall over
-- one.
pub build_summary-IsLargestFall :
    (t : TradeRecord) (trades : List TradeRecord)
    → (let s = build_summary (t ∷ trades) in
        (s.win_count + s.loss_count + s.breakeven_count ≡ length (t ∷ trades))
        × ((m : ℤ) × (s.max_drawdown ≡ some m) × IsLargestFall (map net_pnl (t ∷ trades)) m))
unfolding build_summary
build_summary-IsLargestFall t trades = (
  counts_add (map net_pnl (t ∷ trades)) ∙ length-map (t ∷ trades),
  max_drawdown-IsLargestFall t trades,
)
