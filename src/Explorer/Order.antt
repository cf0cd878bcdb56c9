-- ===== src/Explorer/Order.antt =====
-- `sortArray` of web/src/pages/home-page/file-explorer/Common.tsx and its comparisons.
-- A comparison is used by its sign alone, so its number is modelled by it.
pub mod Signs
pub mod Reversed
pub mod Sorting
pub mod Entries
use web_ssh_tool.Common.{
  ℕ, zero, suc, ◌+◌, ◌-◌, Bool, true, false, ◌&&◌, Option, none, some, List, [], ◌∷◌, ltb, ◌==◌,
  if◌then◌else◌, length,
}
use web_ssh_tool.Common.Text.{Text, lt_text}
use web_ssh_tool.Explorer.Types.{Lstat, Entry, FileType, file_type_text}
use Signs.{Sign, negative, nil, positive}

-- `a < b` is false where one of the two is missing.
abbrev pub less : Option Text → Option Text → Bool
less (some a) (some b) = lt_text a b
less (some a) none = false
less none b = false

unfoldable pub compare : Option Text → Option Text → Sign
compare a b = if less a b then negative else if less b a then positive else nil

-- The sign of `a - b`.
abbrev pub sign_of_sub : ℕ → ℕ → Sign
sign_of_sub a b = if ltb a b then negative else if ltb b a then positive else nil

-- `a.charCodeAt(i)`, within the string.
abbrev pub char_code_at : Text → ℕ → ℕ
char_code_at [] i = 0
char_code_at (c ∷ a) zero = c
char_code_at (c ∷ a) (suc i) = char_code_at a i

-- The `for` loop; the first argument bounds the rounds, of which there are at most `a.length`.
unfoldable pub compare_from_end : ℕ → ℕ → Text → Text → Sign
compare_from_end zero i a b = sign_of_sub (length a) (length b)
compare_from_end (suc n) i a b =
    let next = compare_from_end n (i + 1) a b in
    let a_code = char_code_at a (length a - i - 1) in
    let b_code = char_code_at b (length b - i - 1) in
    if ltb i (length a) && ltb i (length b)
    then (if a_code == b_code then next else sign_of_sub a_code b_code)
    else sign_of_sub (length a) (length b)

unfoldable pub string_reserve_compare : Text → Text → Sign
unfolding compare_from_end
string_reserve_compare a b = compare_from_end (length a) 0 a b

pub data SortType : Type 0 where
  alphabetically date type : SortType

-- `Array.prototype.sort`, which is stable: each element goes behind those that do not compare
-- greater.
unfoldable pub insert {ℓ} : {A : Type ℓ} → (A → A → Sign) → A → List A → List A
insert cmp x [] = x ∷ []
insert cmp x (y ∷ ys) =
    let further = y ∷ insert cmp x ys in elim (cmp x y) [ positive ↦ further | _ ↦ x ∷ y ∷ ys ]

unfoldable pub sort {ℓ} : {A : Type ℓ} → (A → A → Sign) → List A → List A
unfolding insert
sort cmp [] = []
sort cmp (x ∷ xs) = insert cmp x (sort cmp xs)

abbrev pub type_text : Lstat → Option Text
type_text s = elim s.type [ none ↦ none | some t ↦ some (file_type_text t) ]

unfoldable pub compare_entries : SortType → Entry → Entry → Sign
compare_entries type (key0, stats0) (key1, stats1) =
    elim (compare (type_text stats0) (type_text stats1)) [
      | nil ↦ string_reserve_compare key0 key1
      | negative ↦ negative
      | positive ↦ positive
    ]
compare_entries date (key0, stats0) (key1, stats1) =
    compare stats0.modified_time stats1.modified_time
compare_entries alphabetically (key0, stats0) (key1, stats1) = compare (some key0) (some key1)

unfoldable pub sort_array : List Entry → SortType → List Entry
sort_array array t = sort (compare_entries t) array
