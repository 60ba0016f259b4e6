-- ===== src/Poller/Loops.antt =====
-- The loops of a poll, and the dictionaries that they go over (background/poller_task.py).
use oanda_v.Prelude.{
  ◌≡◌, inl, inr, refl, sym, ap, subst, ◌∙◌, String, true, false, Option, some, List, [], ◌∷◌, ◌++◌,
  string_key, ◌==◌, test_cases, test_self, test-ne, if◌then◌else◌, Result, ok, All,
}
use oanda_v.Prelude.Dict.{Dict, lookup, insert}
use oanda_v.Contracts.Trade.{TradeRecord}
use oanda_v.Journal.{Trades}
use oanda_v.Poller.{Event, by_id, for_each}

-- No entry of the dictionary has this key.
abbrev pub Lacks {ℓ} : {V : Type ℓ} → String → Dict String V → Type 0
Lacks k d = All (λ x. (k == x.0) ≡ false) d

abbrev pub IsDict {ℓ} : {V : Type ℓ} → Dict String V → Type 0
IsDict [] = Unit
IsDict ((k, v) ∷ d) = Lacks k d × IsDict d

module _ {V : Type 0} where
  pub insert-Lacks :
      (j k : String) (v : V) (d : Dict String V)
      → (j == k) ≡ false
      → Lacks j d
      → Lacks j (insert k v d)
  unfolding insert
  insert-Lacks j k v [] h l = (h, tt)
  insert-Lacks j k v ((i, w) ∷ d) h (first, l) = elim (test_cases i k) [
    | inl (t, _) ↦ rw t (first, l)
    | inr (f, _) ↦ rw f (first, insert-Lacks j k v d h l)
  ]

  pub insert-IsDict : (k : String) (v : V) (d : Dict String V) → IsDict d → IsDict (insert k v d)
  unfolding insert
  insert-IsDict k v [] h = (tt, tt)
  insert-IsDict k v ((i, w) ∷ d) (l, h) = elim (test_cases i k) [
    | inl (t, _) ↦ rw t (l, h)
    | inr (f, _) ↦ rw f (insert-Lacks i k v d f l, insert-IsDict k v d h)
  ]

  pub insert-All :
      (P : String × V → Type 0) (k : String) (v : V) (d : Dict String V)
      → P (k, v)
      → All P d
      → All P (insert k v d)
  unfolding insert
  insert-All P k v [] p h = (p, tt)
  insert-All P k v ((i, w) ∷ d) p (q, h) = elim (test_cases i k) [
    | inl (t, e) ↦ rw t (subst (λ x. P (x, v)) (sym e) p, h)
    | inr (f, _) ↦ rw f (q, insert-All P k v d p h)
  ]

  pub lookup-All :
      (P : String × V → Type 0) (k : String) (v : V) (d : Dict String V)
      → All P d
      → lookup k d ≡ some v
      → P (k, v)
  unfolding lookup
  lookup-All P k v [] h found = cc
  lookup-All P k v ((i, w) ∷ d) (p, h) found = elim (test_cases i k) [
    | inl (t, e) ↦
        let same : w ≡ v = cc (rw t at found) in
        subst (λ x. P (x, v)) e (subst (λ x. P (i, x)) same p)
    | inr (f, _) ↦ lookup-All P k v d h (rw f at found)
  ]

module _ {V : Type 0} (key : V → String) where
  pub by_id-IsDict : (vs : List V) (d : Dict String V) → IsDict d → IsDict (by_id key vs d)
  unfolding by_id
  by_id-IsDict [] d h = h
  by_id-IsDict (v ∷ vs) d h = by_id-IsDict vs (insert (key v) v d) (insert-IsDict (key v) v d h)

  pub by_id-All :
      (P : String × V → Type 0) (vs : List V) (d : Dict String V)
      → All (λ v. P (key v, v)) vs
      → All P d
      → All P (by_id key vs d)
  unfolding by_id
  by_id-All P [] d h k = k
  by_id-All P (v ∷ vs) d (p, h) k =
      by_id-All P vs (insert (key v) v d) h (insert-All P (key v) v d p k)

-- Tests of two keys agree both ways round.
pub flip : (j k : String) → (k == j) ≡ false → (j == k) ≡ false
flip j k h = test-ne j k (λ e. (cc (h, subst (λ x. (x == j) ≡ true) e (test_self j))))

-- What a step does to the table: only the record under its own key may change.
abbrev pub Frame : String → Trades → Trades → Type 0
Frame k trades changed =
    (j : String) → lookup j changed ≡ (if k == j then lookup k changed else lookup j trades)

-- A step succeeds on a table that satisfies `Inv`, by what stands under its key.
abbrev pub Succeeds :
    {V : Type 0}
    → (Trades → Type 0)
    → (String × V → Option TradeRecord → Type 0)
    → (String × V → Trades → Result (List Event × Trades))
    → String × V
    → Trades
    → Type 0
Succeeds Inv Post step x trades =
    (events : List Event) × (changed : Trades) × (step x trades ≡ ok (events, changed))
    × Inv changed
    × Post x (lookup x.0 changed)
    × Frame x.0 trades changed

module _ {V : Type 0} (Inv : Trades → Type 0) (Pre Post : String × V → Option TradeRecord → Type 0)
    (step : String × V → Trades → Result (List Event × Trades))
    (good : (x : String × V) (trades : Trades)
      → Inv trades
      → Pre x (lookup x.0 trades)
      → Succeeds Inv Post step x trades) where
  Frame-Lacks :
      (P : String × V → Option TradeRecord → Type 0) (k : String) (trades changed : Trades)
      (xs : Dict String V)
      → Frame k trades changed
      → Lacks k xs
      → All (λ x. P x (lookup x.0 trades)) xs
      → All (λ x. P x (lookup x.0 changed)) xs
  Frame-Lacks P k trades changed [] f l h = tt
  Frame-Lacks P k trades changed (x ∷ xs) f (other, l) (p, h) = (
    subst (P x) (sym (f x.0 ∙ ap (λ b. if b then lookup k changed else lookup x.0 trades) other)) p,
    Frame-Lacks P k trades changed xs f l h,
  )

  -- A loop over a dictionary whose steps succeed: it ends, each entry's record is as its step left it,
  -- and the records of other keys do not change.
  pub for_each-Succeeds :
      (xs : Dict String V) (trades : Trades)
      → IsDict xs
      → Inv trades
      → All (λ x. Pre x (lookup x.0 trades)) xs
      → (events : List Event) × (changed : Trades) × (for_each step xs trades
          ≡ (ok events, changed))
        × Inv changed
        × All (λ x. Post x (lookup x.0 changed)) xs
        × ((j : String) → Lacks j xs → lookup j changed ≡ lookup j trades)
  unfolding for_each
  for_each-Succeeds [] trades d i p = ([], trades, refl, i, tt, λ j l. refl)
  for_each-Succeeds (x ∷ xs) trades (lacks, d) i (p, ps) =
      let (events, middle, ran, i', post, frame) = good x trades i p in
      let (more, changed, rest, i'', posts, kept) =
        for_each-Succeeds xs middle d i' (Frame-Lacks Pre x.0 trades middle xs frame lacks ps) in
      (
        events ++ more,
        changed,
        rw (ran, rest) refl,
        i'',
        (subst (Post x) (sym (kept x.0 lacks)) post, posts),
        λ j (other, l).
            kept j l
            ∙ frame j
            ∙ ap (λ b. if b then lookup x.0 middle else lookup j trades) (flip x.0 j other),
      )
