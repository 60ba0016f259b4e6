-- ===== src/MarketState/History.antt =====
-- The bounded history of the state store: a dictionary of consecutive versions of which the
-- newest are kept.
use oanda_v.Prelude.{
  ℕ, zero, suc, ◌+◌, ◌-◌, ◌≡◌, refl, ap, sym, ◌∙◌, none, List, [], ◌∷◌, ◌++◌, arith, nat_key, ltb,
  leb, length, drop, get_elem?, length-append, length-drop, drop-append, if◌then◌else◌, Bool-cases,
  inl, inr, leb→le, get_elem?-drop, ltb_false→le, ltb→lt,
}
use oanda_v.Prelude.Dict.{Dict, lookup, insert}
use oanda_v.MarketState.{evict}

module _ {ℓ} {V : Type ℓ} where
  -- The last `n` elements.
  abbrev pub recent : ℕ → List V → List V
  recent n xs = drop (length xs - n) xs

  pub evict-eq-recent : (n : ℕ) (xs : List V) → evict n xs ≡ recent n xs
  unfolding evict
  evict-eq-recent n [] = ground arith
  evict-eq-recent n (x ∷ xs) = elim (Bool-cases (ltb n (suc (length xs)))) [
    | inl over ↦ rw over (
        evict-eq-recent n xs
        ∙ ap (λ k. drop k (x ∷ xs)) {x = suc (length xs - n)} {y = suc (length xs) - n}
            (omega (arith, ltb→lt _ _ over)))
    | inr fits ↦ rw fits (
        ap (λ k. drop k (x ∷ xs)) {x = zero} {y = suc (length xs) - n}
          (omega (arith, ltb_false→le _ _ fits)))
  ]

module _ {ℓ} {V : Type ℓ} where
  -- Values under consecutive versions.
  pub number : ℕ → List V → Dict ℕ V
  number i [] = []
  number i (x ∷ xs) = (i, x) ∷ number (suc i) xs

  -- The versions that are kept of the values ever published, of which the first has version 1.
  pub window : ℕ → List V → Dict ℕ V
  window n xs = number (suc (length xs - n)) (drop (length xs - n) xs)

  length-number : (i : ℕ) (xs : List V) → length (number i xs) ≡ length xs
  unfolding number
  length-number i [] = refl
  length-number i (x ∷ xs) = ap suc (length-number (suc i) xs)

  insert-number :
      (i : ℕ) (v : V) (xs : List V)
      → insert (i + length xs) v (number i xs) ≡ number i (xs ++ v ∷ [])
  unfolding number insert
  insert-number i v [] = ground arith
  insert-number i v (x ∷ xs) = ground (arith, insert-number (suc i) v xs)

  drop-number : (d i : ℕ) (xs : List V) → drop d (number i xs) ≡ number (i + d) (drop d xs)
  unfolding number
  drop-number zero i xs = ap (λ k. number k xs) (omega arith)
  drop-number (suc d) i [] = refl
  drop-number (suc d) i (x ∷ xs) = ground (arith, drop-number d (suc i) xs)

  drop-nil : (k : ℕ) → drop {A = V} k [] ≡ []
  drop-nil zero = refl
  drop-nil (suc k) = refl

  drop-drop : (d e : ℕ) (xs : List V) → drop e (drop d xs) ≡ drop (d + e) xs
  drop-drop zero e xs = ap (λ k. drop k xs) (omega arith)
  drop-drop (suc d) e [] = drop-nil e ∙ sym (drop-nil (suc d + e))
  drop-drop (suc d) e (x ∷ xs) =
      drop-drop d e xs ∙ ap (λ k. drop k (x ∷ xs)) {x = suc (d + e)} {y = suc d + e} (omega arith)

  lookup-number :
      (w i : ℕ) (xs : List V)
      → lookup w (number i xs) ≡ (if leb i w then get_elem? xs (w - i) else none)
  unfolding number lookup
  lookup-number w i [] = ground arith
  lookup-number w i (x ∷ xs) = ground (arith, lookup-number w (suc i) xs)

  -- A new version joins the window, and the oldest leaves it where it is full.
  pub window-push :
      (n : ℕ) (y : V) (xs : List V)
      → evict n (insert (length xs + 1) y (window n xs)) ≡ window n (xs ++ y ∷ [])
  unfolding window
  window-push n y xs =
      let d = length xs - n in
      let zs = drop d xs in
      let ws = xs ++ y ∷ [] in
      let more : length xs + 1 ≡ suc d + length zs = omega (arith, length-drop d xs) in
      let e = length (number (suc d) (zs ++ y ∷ [])) - n in
      let e_eq : d + e ≡ length (xs ++ y ∷ []) - n = omega (
        arith,
        length-number (suc d) (zs ++ y ∷ []),
        length-append zs (y ∷ []),
        length-append xs (y ∷ []),
        length-drop d xs,
      ) in
      rw (more, insert-number (suc d) y zs, evict-eq-recent, drop-number)
        (ap (λ k. number k (drop e (zs ++ y ∷ []))) {y = suc (length ws - n)} (omega arith)
          ∙ ap (number (suc (length ws - n))) (
              ap (drop e) (sym (drop-append d xs (y ∷ []) (omega arith)))
              ∙ drop-drop d e ws
              ∙ ap (λ k. drop k ws) e_eq))

  -- Exactly the newest `n` versions are found, each under its place among those published.
  pub lookup-window :
      (n w : ℕ) (xs : List V)
      → lookup w (window n xs)
        ≡ (if leb (suc (length xs - n)) w then get_elem? xs (w - 1) else none)
  unfolding window
  lookup-window n w xs = rw lookup-number (elim (Bool-cases (leb (suc d) w)) [
    | inl kept ↦
        rw kept
          (get_elem?-drop d (w - suc d) xs ∙ ap (get_elem? xs) (omega (arith, leb→le _ _ kept)))
    | inr gone ↦ rw gone
  ])
    where
      d : ℕ
      d = length xs - n

  pub window-nil : (n : ℕ) → window n [] ≡ []
  unfolding window number
  window-nil n = rw drop-nil
