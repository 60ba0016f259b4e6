-- ===== src/Prelude/Texts.antt =====
-- Texts by their characters. Letters are ASCII.
use Prim.Native.Char.{code}
use Prim.Native.String.{String, [], ◌∷◌}
use Prim.Native.Nat.{ℕ, ◌-◌}
use mathlib.Core.Bool.{Bool, true, false, ◌&&◌}
use oanda_v.Prelude.Tests.{leb, if◌then◌else◌}
use oanda_v.Prelude.Keys.{nat_key, ◌==◌}

abbrev pub upper_code : ℕ → ℕ
upper_code c = if leb 97 c && leb c 122 then c - 32 else c

-- `s.upper() == t.upper()`
unfoldable pub same_upper : String → String → Bool
same_upper [] [] = true
same_upper [] (c ∷ t) = false
same_upper (c ∷ s) [] = false
same_upper (c ∷ s) (d ∷ t) = upper_code (code c) == upper_code (code d) && same_upper s t
