-- ===== src/Common/Text.antt =====
-- JavaScript strings that the program walks, as their UTF-16 code units.
use Prim.Native.Nat.{ℕ}
use Prim.Native.Char.{code}
use Prim.Native.String.{String}
use mathlib.Core.Path.{◌≡◌, refl}
use mathlib.Core.Logic.{◌↔◌}
use mathlib.Core.Bool.{Bool, true, false, ◌&&◌}
use mathlib.Core.List.{List, [], ◌∷◌}
use native.Mathlib.Omega.{arith}
use web_ssh_tool.Common.Tests.{◌==◌, ltb, if◌then◌else◌}

abbrev pub Text : Type 0
Text = List ℕ

-- A literal of the source; all of them are ASCII.
abbrev pub lit : String → Text
lit String.[] = []
lit (String.◌∷◌ c s) = code c ∷ lit s

-- `a === b`
unfoldable pub eq_text : Text → Text → Bool
eq_text [] [] = true
eq_text (x ∷ a) (y ∷ b) = (x == y) && eq_text a b
eq_text _ _ = false

-- `a < b`, by code units
unfoldable pub lt_text : Text → Text → Bool
lt_text [] [] = false
lt_text [] (y ∷ b) = true
lt_text (x ∷ a) [] = false
lt_text (x ∷ a) (y ∷ b) =
    let rest = lt_text a b in if ltb x y then true else if ltb y x then false else rest

pub eq_text_iff : (a b : Text) → (eq_text a b ≡ true) ↔ (a ≡ b)
unfolding eq_text
eq_text_iff [] [] = ground arith
eq_text_iff [] (y ∷ b) = ground arith
eq_text_iff (x ∷ a) [] = ground arith
eq_text_iff (x ∷ a) (y ∷ b) = ground (arith, eq_text_iff a b)

pub lt_text_irrefl : (a : Text) → lt_text a a ≡ false
unfolding lt_text
lt_text_irrefl [] = refl
lt_text_irrefl (x ∷ a) = ground (arith, lt_text_irrefl a)

pub lt_text_trans : (a b c : Text) → lt_text a b ≡ true → lt_text b c ≡ true → lt_text a c ≡ true
unfolding lt_text
lt_text_trans [] [] c h k = ground arith
lt_text_trans [] (y ∷ b) [] h k = ground arith
lt_text_trans [] (y ∷ b) (z ∷ c) h k = refl
lt_text_trans (x ∷ a) [] c h k = ground arith
lt_text_trans (x ∷ a) (y ∷ b) [] h k = ground arith
lt_text_trans (x ∷ a) (y ∷ b) (z ∷ c) h k = ground (arith, lt_text_trans a b c)

pub eq_of_not_lt_text : (a b : Text) → lt_text a b ≡ false → lt_text b a ≡ false → a ≡ b
unfolding lt_text
eq_of_not_lt_text [] [] h k = refl
eq_of_not_lt_text [] (y ∷ b) h k = ground arith
eq_of_not_lt_text (x ∷ a) [] h k = ground arith
eq_of_not_lt_text (x ∷ a) (y ∷ b) h k = ground (arith, eq_of_not_lt_text a b)
