-- ===== src/Prelude/Keys.antt =====
-- Keys of dictionaries: types with a decided equality.
use Prim.Native.Nat.{ℕ}
use Prim.Native.String.{String}
use mathlib.Core.Path.{◌≡◌, refl}
use mathlib.Core.Logic.{◌≢◌, ◌↔◌, ◌⊎◌, inl, inr}
use mathlib.Core.Bool.{Bool, true, false, ◌&&◌}
use native.Mathlib.Omega.{arith}
use text.Mathlib.Text.{◌==◌ as str_beq}
use text.Mathlib.TextEquality.{eq_iff}
use oanda_v.Prelude.Tests.{nat_beq, Bool-cases}

-- What a dictionary asks of its keys.
pub record Key {ℓ} (K : Type ℓ) : Type ℓ where
  pub test : K → K → Bool
  pub test_iff : (j k : K) → (test j k ≡ true) ↔ (j ≡ k)

instance abbrev pub string_key : Key String
string_key = record { test_iff = eq_iff; test = str_beq }

pub nat_test_iff : (j k : ℕ) → (nat_beq j k ≡ true) ↔ (j ≡ k)
nat_test_iff j k = ((λ h. ground arith), (λ h. ground arith))

instance abbrev pub nat_key : Key ℕ
nat_key = record { test_iff = nat_test_iff; test = nat_beq }

infix 50 ◌==◌
abbrev pub ◌==◌ {ℓ} : {K : Type ℓ} ⦃key : Key K⦄ (j k : K) → Bool
◌==◌ ⦃key⦄ j k = key.test j k

module _ {ℓ} {A : Type ℓ} ⦃e : Key A⦄ where
  pub test_self : (a : A) → (a == a) ≡ true
  test_self a = (e.test_iff a a).1 refl

  pub test-ne : (a b : A) → a ≢ b → (a == b) ≡ false
  test-ne a b h = elim (Bool-cases (a == b)) [
    | inl t ↦ absurd (h ((e.test_iff a b).0 t))
    | inr f ↦ f
  ]

  -- A test of two keys, with what it says of them.
  pub test_cases : (a b : A) → ((a == b) ≡ true) × (a ≡ b) ⊎ ((a == b) ≡ false) × (a ≢ b)
  test_cases a b = elim (Bool-cases (a == b)) [
    | inl t ↦ inl (t, (e.test_iff a b).0 t)
    | inr f ↦ inr (f, λ p. (cc (f, (e.test_iff a b).1 p)))
  ]

module _ {ℓ κ} {A : Type ℓ} {B : Type κ} ⦃e : Key A⦄ ⦃f : Key B⦄ where
  abbrev pub pair_test : A × B → A × B → Bool
  pair_test p q = e.test p.0 q.0 && f.test p.1 q.1

  pub pair_test_iff : (p q : A × B) → (pair_test p q ≡ true) ↔ (p ≡ q)
  pair_test_iff p q = (
    (λ h. ground (arith, e.test_iff p.0 q.0, f.test_iff p.1 q.1)),
    (λ h. ground (arith, e.test_iff p.0 q.0, f.test_iff p.1 q.1)),
  )

  instance abbrev pub pair_key : Key (A × B)
  pair_key = record { test = pair_test; test_iff = pair_test_iff }
