-- ===== src/Prelude/Sorting.antt =====
-- `sort(key=...)` by a number: a stable insertion sort, and what it keeps.
use Prim.Native.Nat.{ℕ, ◌≤◌}
use mathlib.Core.Path.{◌≡◌, refl}
use mathlib.Core.Logic.{inl, inr}
use mathlib.Core.List.{List, [], ◌∷◌}
use native.Mathlib.Omega.{arith}
use oanda_v.Prelude.Tests.{leb, if◌then◌else◌, Bool-cases, leb→le, leb_false→lt}
use oanda_v.Prelude.Lists.{All, All-map, Any}

module _ {A : Type 0} (key : A → ℕ) where
  unfoldable pub insert_by : A → List A → List A
  insert_by a [] = a ∷ []
  insert_by a (b ∷ bs) =
      let rest = insert_by a bs in if leb (key a) (key b) then a ∷ b ∷ bs else b ∷ rest

  unfoldable pub sort_by : List A → List A
  sort_by [] = []
  sort_by (a ∷ rest) = insert_by a (sort_by rest)

  -- Keys grow, or stay.
  abbrev pub IsSortedBy : List A → Type 0
  IsSortedBy [] = Unit
  IsSortedBy (a ∷ rest) = All (λ b. key a ≤ key b) rest × IsSortedBy rest

  pub All-insert_by :
      (P : A → Type 0) (a : A) (bs : List A) → P a → All P bs → All P (insert_by a bs)
  unfolding insert_by
  All-insert_by P a [] p h = (p, tt)
  All-insert_by P a (b ∷ bs) p (q, h) = elim (Bool-cases (leb (key a) (key b))) [
    | inl e ↦ rw e (p, (q, h))
    | inr e ↦ rw e (q, All-insert_by P a bs p h)
  ]

  pub All-sort_by : (P : A → Type 0) (vs : List A) → All P vs → All P (sort_by vs)
  unfolding sort_by
  All-sort_by P [] h = tt
  All-sort_by P (a ∷ rest) (p, h) = All-insert_by P a (sort_by rest) p (All-sort_by P rest h)

  insert_by-IsSortedBy : (a : A) (bs : List A) → IsSortedBy bs → IsSortedBy (insert_by a bs)
  unfolding insert_by
  insert_by-IsSortedBy a [] s = (tt, tt)
  insert_by-IsSortedBy a (b ∷ bs) (h, s) = elim (Bool-cases (leb (key a) (key b))) [
    | inl e ↦ let le = leb→le _ _ e in rw e ((le, All-map (λ c l. omega arith) bs h), (h, s))
    | inr e ↦ rw e (
      All-insert_by (λ c. key b ≤ key c) a bs (omega (arith, leb_false→lt _ _ e)) h,
      insert_by-IsSortedBy a bs s,
    )
  ]

  pub sort_by-IsSortedBy : (vs : List A) → IsSortedBy (sort_by vs)
  unfolding sort_by
  sort_by-IsSortedBy [] = tt
  sort_by-IsSortedBy (a ∷ rest) = insert_by-IsSortedBy a (sort_by rest) (sort_by-IsSortedBy rest)

  Any-insert_by_here : (P : A → Type 0) (a : A) (bs : List A) → P a → Any P (insert_by a bs)
  unfolding insert_by
  Any-insert_by_here P a [] p = Any.here p
  Any-insert_by_here P a (b ∷ bs) p = elim (Bool-cases (leb (key a) (key b))) [
    | inl e ↦ rw e (Any.here p)
    | inr e ↦ rw e (Any.there (Any-insert_by_here P a bs p))
  ]

  Any-insert_by : (P : A → Type 0) (a : A) (bs : List A) → Any P bs → Any P (insert_by a bs)
  unfolding insert_by
  Any-insert_by P a [] h = elim h [ ]
  Any-insert_by P a (b ∷ bs) (Any.here p) = elim (Bool-cases (leb (key a) (key b))) [
    | inl e ↦ rw e (Any.there (Any.here p))
    | inr e ↦ rw e (Any.here p)
  ]
  Any-insert_by P a (b ∷ bs) (Any.there h) = elim (Bool-cases (leb (key a) (key b))) [
    | inl e ↦ rw e (Any.there (Any.there h))
    | inr e ↦ rw e (Any.there (Any-insert_by P a bs h))
  ]

  pub Any-sort_by : (P : A → Type 0) (vs : List A) → Any P vs → Any P (sort_by vs)
  unfolding sort_by
  Any-sort_by P [] h = elim h [ ]
  Any-sort_by P (a ∷ rest) (Any.here p) = Any-insert_by_here P a (sort_by rest) p
  Any-sort_by P (a ∷ rest) (Any.there h) = Any-insert_by P a (sort_by rest) (Any-sort_by P rest h)

  -- A list in order is not changed.
  insert_by_first : (a : A) (bs : List A) → All (λ b. key a ≤ key b) bs → insert_by a bs ≡ a ∷ bs
  unfolding insert_by
  insert_by_first a [] h = refl
  insert_by_first a (b ∷ bs) (le, h) = ground arith

  pub sort_by-sorted : (vs : List A) → IsSortedBy vs → sort_by vs ≡ vs
  unfolding sort_by
  sort_by-sorted [] h = refl
  sort_by-sorted (a ∷ rest) (h, s) = rw (sort_by-sorted rest s) (insert_by_first a rest h)
