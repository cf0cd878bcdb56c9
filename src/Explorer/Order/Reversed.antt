-- ===== src/Explorer/Order/Reversed.antt =====
-- The loop of `stringReserveCompare` (file-explorer/Common.tsx).
use mathlib.Core.Path.{ap₂}
use mathlib.Core.List.{reverse, reverse-cons, reverse-reverse}
use web_ssh_tool.Common.{
  ℕ, zero, suc, ◌+◌, ◌-◌, ◌≤◌, ◌<◌, ◌≡◌, refl, ap, sym, inl, inr, ◌⊎◌, ◌∙◌, ◌==◌, some, [], ◌∷◌,
  ◌++◌, arith, length, length-append, if◌then◌else◌,
}
use native.Mathlib.Decide.{dec_lt}
use native.Mathlib.Numerals.{add-one}
use web_ssh_tool.Common.Text.{Text, lt_text}
use web_ssh_tool.Explorer.Order.{
  compare, sign_of_sub, char_code_at, compare_from_end, string_reserve_compare,
}

char_code_at-append_left :
    (xs ys : Text) (k : ℕ) → k < length xs → char_code_at (xs ++ ys) k ≡ char_code_at xs k
char_code_at-append_left [] ys k h = elim h [ ]
char_code_at-append_left (x ∷ xs) ys zero h = refl
char_code_at-append_left (x ∷ xs) ys (suc k) h = char_code_at-append_left xs ys k (omega arith)

char_code_at-append_right : (xs ys : Text) → char_code_at (xs ++ ys) (length xs) ≡ char_code_at ys 0
char_code_at-append_right [] ys = refl
char_code_at-append_right (x ∷ xs) ys = char_code_at-append_right xs ys

length-reverse : (r : Text) → length (reverse r) ≡ length r
length-reverse [] = refl
length-reverse (c ∷ r) =
    ap length (reverse-cons c r)
    ∙ omega (arith, length-append (reverse r) (c ∷ []), length-reverse r)

char_code_at-reverse :
    (r : Text) (i : ℕ)
    → i < length r
    → char_code_at (reverse r) (length r - i - 1) ≡ char_code_at r i
char_code_at-reverse [] i h = elim h [ ]
char_code_at-reverse (c ∷ r) zero h =
    ap₂ char_code_at (reverse-cons c r) (omega (arith, length-reverse r))
    ∙ char_code_at-append_right (reverse r) (c ∷ [])
char_code_at-reverse (c ∷ r) (suc i) h =
    ap₂ char_code_at (reverse-cons c r) (omega arith)
    ∙ char_code_at-append_left (reverse r) (c ∷ []) (length r - i - 1)
        (omega (arith, length-reverse r))
    ∙ char_code_at-reverse r i (omega arith)

abbrev drop : ℕ → Text → Text
drop zero r = r
drop (suc i) [] = []
drop (suc i) (c ∷ r) = drop i r

drop_lt : (i : ℕ) (r : Text) → i < length r → drop i r ≡ char_code_at r i ∷ drop (suc i) r
drop_lt zero [] h = elim h [ ]
drop_lt zero (c ∷ r) h = refl
drop_lt (suc i) [] h = elim h [ ]
drop_lt (suc i) (c ∷ r) h = drop_lt i r (omega arith)

drop_all : (i : ℕ) (r : Text) → length r ≤ i → drop i r ≡ []
drop_all zero [] h = refl
drop_all zero (c ∷ r) h = elim h [ ]
drop_all (suc i) [] h = refl
drop_all (suc i) (c ∷ r) h = drop_all i r (omega arith)

compare-cons :
    (c d : ℕ) (r s : Text)
    → compare (some (c ∷ r)) (some (d ∷ s))
      ≡ (if c == d then compare (some r) (some s) else sign_of_sub c d)
unfolding compare lt_text
compare-cons c d r s = ground arith

compare_ended :
    (i : ℕ) (r s : Text)
    → i ≤ length r
    → i ≤ length s
    → (length r ≤ i) ⊎ (length s ≤ i)
    → compare (some (drop i r)) (some (drop i s)) ≡ sign_of_sub (length r) (length s)
unfolding compare lt_text
compare_ended i r s hr hs h = elim (dec_lt i (length r)) [
  | yes p ↦ elim (dec_lt i (length s)) [
    | yes q ↦ absurd (omega arith)
    | no q ↦ rw (drop_lt i r p, drop_all i s (omega arith)) (ground arith)
  ]
  | no p ↦ elim (dec_lt i (length s)) [
    | yes q ↦ rw (drop_all i r (omega arith), drop_lt i s q) (ground arith)
    | no q ↦ rw (drop_all i r (omega arith), drop_all i s (omega arith)) (ground arith)
  ]
]

loop_lem :
    (n i : ℕ) (r s : Text)
    → i ≤ length r
    → i ≤ length s
    → length r ≤ n + i
    → compare_from_end n i (reverse r) (reverse s) ≡ compare (some (drop i r)) (some (drop i s))
unfolding compare_from_end
loop_lem zero i r s hr hs h =
    rw (length-reverse r, length-reverse s) (sym (compare_ended i r s hr hs (inl (omega arith))))
loop_lem (suc n) i r s hr hs h = elim (dec_lt i (length r)) [
  | yes p ↦ elim (dec_lt i (length s)) [
    | yes q ↦
        rw (drop_lt i r p, drop_lt i s q, compare-cons)
          (ground (
            arith,
            length-reverse r,
            length-reverse s,
            char_code_at-reverse r i p,
            char_code_at-reverse s i q,
            add-one i,
            loop_lem n (suc i) r s p q (omega arith),
          ))
    | no q ↦
        ground
          (arith, length-reverse r, length-reverse s, compare_ended i r s hr hs (inr (omega arith)))
  ]
  | no p ↦
      ground
        (arith, length-reverse r, length-reverse s, compare_ended i r s hr hs (inl (omega arith)))
]

-- Comparing two names from their ends, and by length where one ends the other, is comparing the
-- reversed names by code units from the front.
pub string_reserve_compare_lem :
    (a b : Text) → string_reserve_compare a b ≡ compare (some (reverse a)) (some (reverse b))
unfolding string_reserve_compare
string_reserve_compare_lem a b =
    ap₂ (λ x y. compare_from_end (length a) 0 x y) (sym (reverse-reverse a))
      (sym (reverse-reverse b))
    ∙ loop_lem (length a) 0 (reverse a) (reverse b) (omega arith) (omega arith)
        (omega (arith, length-reverse a))
