-- ===== src/History/Commission.antt =====
-- The allocation of a fill's commission to its legs (journal/trade_normalizer.py).
use oanda_v.Prelude.{
  ℕ, suc, ◌≡◌, ◌≢◌, refl, sym, ◌∙◌, ap, List, [], ◌∷◌, nat_key, ◌==◌, test-ne, map, length, arith,
  Bool-cases, inl, inr,
}
use oanda_v.Prelude.Int.{ℤ, pos, ◌+ℤ◌, ◌-ℤ◌, abs, +ℤ_parts, -ℤ_parts, eq_of_parts}
use oanda_v.History.{total_abs, share, allocate_from, allocate_commission}

unfoldable pub sum : List ℤ → ℤ
sum [] = pos 0
sum (a ∷ rest) = a +ℤ sum rest

pub sum-nil : sum [] ≡ pos 0
unfolding sum
sum-nil = refl

pub sum-cons : (a : ℤ) (rest : List ℤ) → sum (a ∷ rest) ≡ a +ℤ sum rest
unfolding sum
sum-cons a rest = refl

pub +ℤ_assoc : (a b c : ℤ) → (a +ℤ b) +ℤ c ≡ a +ℤ (b +ℤ c)
+ℤ_assoc a b c =
    eq_of_parts _ _
      (omega (arith, +ℤ_parts a b, +ℤ_parts (a +ℤ b) c, +ℤ_parts b c, +ℤ_parts a (b +ℤ c)))

-- What is left, added to what was taken.
left_over : (running total : ℤ) → running +ℤ ((total -ℤ running) +ℤ pos 0) ≡ total
left_over running total = eq_of_parts _ _ (
    omega (
      arith,
      -ℤ_parts total running,
      +ℤ_parts (total -ℤ running) (pos 0),
      +ℤ_parts running ((total -ℤ running) +ℤ pos 0),
    ))

zero_add : (a : ℤ) → pos 0 +ℤ a ≡ a
zero_add a = eq_of_parts _ _ (omega (arith, +ℤ_parts (pos 0) a))

allocate_from-sum :
    (total : ℤ) (whole : ℕ) (running u : ℤ) (us : List ℤ)
    → running +ℤ sum (allocate_from total whole running (u ∷ us)) ≡ total
unfolding allocate_from
allocate_from-sum total whole running u [] =
    rw (sum-cons (total -ℤ running) [], sum-nil) (left_over running total)
allocate_from-sum total whole running u (v ∷ us) =
    let a = share total (abs u) whole in
    ap (λ x. running +ℤ x) (sum-cons a (allocate_from total whole (running +ℤ a) (v ∷ us)))
    ∙ sym (+ℤ_assoc running a _)
    ∙ allocate_from-sum total whole (running +ℤ a) v us

allocate_from-length :
    (total : ℤ) (whole : ℕ) (running : ℤ) (us : List ℤ)
    → length (allocate_from total whole running us) ≡ length us
unfolding allocate_from
allocate_from-length total whole running [] = refl
allocate_from-length total whole running (u ∷ []) = refl
allocate_from-length total whole running (u ∷ v ∷ us) =
    ap suc (allocate_from-length total whole (running +ℤ share total (abs u) whole) (v ∷ us))

length-map : (f : ℤ → ℤ) (us : List ℤ) → length (map f us) ≡ length us
length-map f [] = refl
length-map f (u ∷ us) = ap suc (length-map f us)

pub allocate_commission-length :
    (total : ℤ) (units : List ℤ) → length (allocate_commission total units) ≡ length units
unfolding allocate_commission
allocate_commission-length total units = elim (Bool-cases (total_abs units == 0)) [
  | inl no_units ↦ rw no_units (length-map (λ _. pos 0) units)
  | inr units_left ↦ rw units_left (allocate_from-length total (total_abs units) (pos 0) units)
]

-- Where some leg has units, each leg gets an allocation, and the allocations add up to the whole
-- commission, whatever was rounded.
pub allocate_commission-sum :
    (total : ℤ) (units : List ℤ)
    → total_abs units ≢ 0
    → (length (allocate_commission total units) ≡ length units)
      × (sum (allocate_commission total units) ≡ total)
unfolding allocate_commission total_abs
allocate_commission-sum total [] h = absurd (h refl)
allocate_commission-sum total (u ∷ us) h =
    let some_units = test-ne (total_abs (u ∷ us)) 0 h in
    (
      allocate_commission-length total (u ∷ us),
      rw some_units (sym (zero_add _) ∙ allocate_from-sum total (total_abs (u ∷ us)) (pos 0) u us),
    )
