-- ===== src/Common/Split.antt =====
-- `split` of JavaScript's strings, by one character.
use Prim.Native.Nat.{ℕ}
use mathlib.Core.Path.{◌≡◌, refl}
use mathlib.Core.Logic.{◌≢◌}
use mathlib.Core.List.{List, [], ◌∷◌, ◌++◌}
use native.Mathlib.Omega.{arith}
use web_ssh_tool.Common.Tests.{◌==◌, if◌then◌else◌}
use web_ssh_tool.Common.Lists.{All}

abbrev cons_head : ℕ → List (List ℕ) → List (List ℕ)
cons_head x [] = (x ∷ []) ∷ []
cons_head x (p ∷ ps) = (x ∷ p) ∷ ps

unfoldable pub split_on : ℕ → List ℕ → List (List ℕ)
split_on sep [] = [] ∷ []
split_on sep (x ∷ s) = let rest = split_on sep s in if x == sep then [] ∷ rest else cons_head x rest

split_on_filled : (sep : ℕ) (a : List ℕ) → split_on sep a ≢ []
unfolding split_on
split_on_filled sep [] = ground arith
split_on_filled sep (c ∷ a) = filled (split_on sep a)
  where
    filled : (parts : List (List ℕ)) → (if c == sep then [] ∷ parts else cons_head c parts) ≢ []
    filled [] = ground arith
    filled (p ∷ ps) = ground arith

cons_head-append :
    (c : ℕ) (xs ys : List (List ℕ)) → xs ≢ [] → cons_head c (xs ++ ys) ≡ cons_head c xs ++ ys
cons_head-append c [] ys h = absurd (h refl)
cons_head-append c (x ∷ xs) ys h = refl

-- A separator cuts what is before it from what is behind it.
pub split_on-append :
    (sep : ℕ) (a b : List ℕ) → split_on sep (a ++ sep ∷ b) ≡ split_on sep a ++ split_on sep b
unfolding split_on
split_on-append sep [] b = ground arith
split_on-append sep (c ∷ a) b = ground (
  arith,
  split_on-append sep a b,
  cons_head-append c (split_on sep a) (split_on sep b) (split_on_filled sep a),
)

-- A text without the separator is not cut.
pub split_on_whole : (sep : ℕ) (a : List ℕ) → All (λ c. c ≢ sep) a → split_on sep a ≡ a ∷ []
unfolding split_on
split_on_whole sep [] h = refl
split_on_whole sep (c ∷ a) h = ground (arith, split_on_whole sep a h.1, h.0)
