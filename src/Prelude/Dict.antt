-- ===== src/Prelude/Dict.antt =====
-- A Python dict as an association list in insertion order.
use mathlib.Core.Bool.{Bool, true}
use native.Mathlib.Omega.{arith}
use oanda_v.Prelude.Lists.{all}
use mathlib.Core.Path.{◌≡◌, ap}
use mathlib.Core.Logic.{◌≢◌, ◌⊎◌, inl, inr}
use mathlib.Core.Option.{Option, none, some}
use mathlib.Core.List.{List, [], ◌∷◌, ◌++◌}
use oanda_v.Prelude.Tests.{if◌then◌else◌}
use oanda_v.Prelude.Keys.{Key, ◌==◌, test_cases, test_self, test-ne}

abbrev pub Dict {ℓ κ} : Type ℓ → Type κ → Type (ℓ ⊔ κ)
Dict K V = List (K × V)

abbrev pub or_else {ℓ} : {V : Type ℓ} → V → Option V → V
or_else v none = v
or_else _ (some v) = v

module _ {ℓ κ} {K : Type ℓ} {V : Type κ} ⦃e : Key K⦄ where
  -- `d.get(k)`
  unfoldable pub lookup : K → Dict K V → Option V
  lookup k [] = none
  lookup k ((j, v) ∷ d) = if j == k then some v else lookup k d

  -- `d.get(k, default)`
  abbrev pub lookup_or : K → V → Dict K V → V
  lookup_or k default d = or_else default (lookup k d)

  -- `d[k] = v`: a new key goes to the end.
  unfoldable pub insert : K → V → Dict K V → Dict K V
  insert k v [] = (k, v) ∷ []
  insert k v ((j, w) ∷ d) = if j == k then (j, v) ∷ d else (j, w) ∷ insert k v d

  pub lookup-insert_self : (k : K) (v : V) (d : Dict K V) → lookup k (insert k v d) ≡ some v
  unfolding lookup insert
  lookup-insert_self k v [] = rw (test_self k)
  lookup-insert_self k v ((j, w) ∷ d) = elim (test_cases j k) [
    | inl (t, _) ↦ rw t (rw t)
    | inr (f, _) ↦ rw f (rw f (lookup-insert_self k v d))
  ]

  pub lookup-insert_ne :
      (j k : K) (v : V) (d : Dict K V) → k ≢ j → lookup j (insert k v d) ≡ lookup j d
  unfolding lookup insert
  lookup-insert_ne j k v [] h = rw (test-ne k j h)
  lookup-insert_ne j k v ((i, w) ∷ d) h = elim (test_cases i k) [
    | inl (t, p) ↦ rw t (rw (test-ne i j (λ q. h (cc (p, q)))))
    | inr (f, _) ↦ rw f (ap (λ o. if i == j then some w else o) (lookup-insert_ne j k v d h))
  ]

  pub lookup-insert :
      (j k : K) (v : V) (d : Dict K V)
      → lookup j (insert k v d) ≡ (if k == j then some v else lookup j d)
  lookup-insert j k v d = elim (test_cases k j) [
    | inl (t, p) ↦ rw (t, ← p) (lookup-insert_self k v d)
    | inr (f, n) ↦ rw f (lookup-insert_ne j k v d n)
  ]

  pub lookup_or-insert :
      (j k : K) (default v : V) (d : Dict K V)
      → lookup_or j default (insert k v d) ≡ (if k == j then v else lookup_or j default d)
  lookup_or-insert j k default v d =
      rw lookup-insert (elim (test_cases k j) [ inl (t, _) ↦ rw t | inr (f, _) ↦ rw f ])

  -- What a test finds of every entry holds of the one that is looked up.
  pub lookup-all :
      (p : K → V → Bool) (k : K) (v : V) (d : Dict K V)
      → all (λ (x : K × V). p x.0 x.1) d ≡ true
      → lookup k d ≡ some v
      → p k v ≡ true
  unfolding lookup
  lookup-all p k v [] a h = cc
  lookup-all p k v ((j, w) ∷ d) a h = ground (arith, e.test_iff j k, lookup-all p k v d)

  pub lookup-append_left :
      (k : K) (v : V) (d d' : Dict K V) → lookup k d ≡ some v → lookup k (d ++ d') ≡ some v
  unfolding lookup
  lookup-append_left k v [] d' h = cc
  lookup-append_left k v ((j, w) ∷ d) d' h = ground (arith, lookup-append_left k v d d')

  -- What a lookup after an insertion has found.
  pub lookup-insert_inv :
      (j k : K) (v x : V) (d : Dict K V)
      → lookup j (insert k v d) ≡ some x
      → (k ≡ j) × (v ≡ x) ⊎ (k ≢ j) × (lookup j d ≡ some x)
  lookup-insert_inv j k v x d h = elim (test_cases k j) [
    | inl (t, p) ↦ inl (p, cc (rw (lookup-insert, t) at h))
    | inr (f, n) ↦ inr (n, rw (lookup-insert, f) at h)
  ]
