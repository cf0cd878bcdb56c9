-- ===== src/Explorer/Order/Entries.antt =====
-- The comparisons of `sortArray` (file-explorer/Common.tsx) on entries.
use mathlib.Core.List.{Perm, reverse}
use mathlib.Core.Path.{fun_ext}
use web_ssh_tool.Common.{◌≡◌, ◌≢◌, refl, Option, none, some, List, [], ◌∷◌, arith, All, keep}
use web_ssh_tool.Common.Text.{Text, lt_text_irrefl, lt_text_trans, eq_of_not_lt_text}
use web_ssh_tool.Explorer.Types.{Lstat, Entry}
use web_ssh_tool.Explorer.Order.Signs.{
  Sign, nil, positive, flip, then_by, IsConsistent, then_by-IsConsistent,
}
use web_ssh_tool.Explorer.Order.Reversed.{string_reserve_compare_lem}
use web_ssh_tool.Explorer.Order.Sorting.{IsSorted, is_nil, sort-perm, sort-IsSorted, level-sort}
use web_ssh_tool.Explorer.Order.{
  compare, SortType, alphabetically, date, type, sort, insert, type_text, compare_entries,
  sort_array,
}

-- Texts that are there are compared by an order.
compare-swap : (a b : Text) → compare (some b) (some a) ≡ flip (compare (some a) (some b))
unfolding compare
compare-swap a b = ground (arith, lt_text_trans a b a, lt_text_irrefl a)

compare_trans :
    (a b c : Text)
    → compare (some a) (some b) ≢ positive
    → compare (some b) (some c) ≢ positive
    → compare (some a) (some c) ≢ positive
unfolding compare
compare_trans a b c h k = ground (
  arith,
  lt_text_trans c a b,
  lt_text_trans b c a,
  lt_text_trans a b a,
  lt_text_irrefl a,
  lt_text_trans b c b,
  lt_text_irrefl b,
  eq_of_not_lt_text a b,
  eq_of_not_lt_text b c,
)

module _ {A : Type 0} (key : A → Option Text) where
  key-IsConsistent : IsConsistent (λ x. key x ≢ none) (λ x y. compare (key x) (key y))
  key-IsConsistent = record {
    swap = λ x y px py. swap (key x) (key y) px py;
    trans = λ x y z px py pz. trans (key x) (key y) (key z) px py pz;
  }
    where
      swap : (a b : Option Text) → a ≢ none → b ≢ none → compare b a ≡ flip (compare a b)
      swap (some a) (some b) pa pb = compare-swap a b
      swap (some a) none pa pb = absurd (pb refl)
      swap none b pa pb = absurd (pa refl)

      trans :
          (a b c : Option Text)
          → a ≢ none
          → b ≢ none
          → c ≢ none
          → compare a b ≢ positive
          → compare b c ≢ positive
          → compare a c ≢ positive
      trans (some a) (some b) (some c) pa pb pc = compare_trans a b c
      trans (some a) (some b) none pa pb pc = absurd (pc refl)
      trans (some a) none c pa pb pc = absurd (pb refl)
      trans none b c pa pb pc = absurd (pa refl)

-- The entry has the key that the order sorts by.
abbrev pub HasKey : SortType → Entry → Type 0
HasKey type e = e.1.type ≢ none
HasKey date e = e.1.modified_time ≢ none
HasKey alphabetically e = Unit

compare_entries_type :
    (x y : Entry)
    → compare_entries type x y
      ≡ then_by
          (compare (type_text x.1) (type_text y.1))
          (compare (some (reverse x.0)) (some (reverse y.0)))
unfolding compare_entries
compare_entries_type (k, s) (l, t) = ground (arith, string_reserve_compare_lem k l)

type_text-ne-none : (s : Lstat) → s.type ≢ none → type_text s ≢ none
type_text-ne-none s h = ground arith

weaken {ℓ} :
    {A : Type ℓ} {P Q : A → Type 0} {f : A → A → Sign}
    → ((x : A) → Q x → P x)
    → IsConsistent P f
    → IsConsistent Q f
weaken q c = record {
  swap = λ x y px py. c.swap x y (q x px) (q y py);
  trans = λ x y z px py pz. c.trans x y z (q x px) (q y py) (q z pz);
}

by_type-IsConsistent : IsConsistent (HasKey type) (λ x y.
    then_by
      (compare (type_text x.1) (type_text y.1))
      (compare (some (reverse x.0)) (some (reverse y.0))))
by_type-IsConsistent =
    then_by-IsConsistent (HasKey type) _ _
      (weaken (λ x h. type_text-ne-none x.1 h) (key-IsConsistent (λ (e : Entry). type_text e.1)))
      (weaken (λ x h e. cc e) (key-IsConsistent (λ (e : Entry). some (reverse e.0))))

-- Names are there always.
pub name-IsConsistent : IsConsistent {A = Entry} (λ x. Unit) (λ x y. compare (some x.0) (some y.0))
name-IsConsistent = weaken (λ x h e. cc e) (key-IsConsistent (λ (e : Entry). some e.0))

compare_entries-IsConsistent : (t : SortType) → IsConsistent (HasKey t) (compare_entries t)
compare_entries-IsConsistent alphabetically = unfold compare_entries in name-IsConsistent
compare_entries-IsConsistent date =
    unfold compare_entries in key-IsConsistent (λ (e : Entry). e.1.modified_time)
compare_entries-IsConsistent type =
    rw (fun_ext (λ x. fun_ext (λ y. compare_entries_type x y))) by_type-IsConsistent

-- Sorting a listing keeps its entries, puts none before one that it compares greater than, and
-- leaves entries that are level with any given one in their order, if every entry and the given
-- one have the key that is sorted by: a type, or a modification time; names are always there.
pub sort_array_lem :
    (t : SortType) (xs : List Entry) (k : Entry)
    → All (HasKey t) xs
    → HasKey t k
    → Perm (sort_array xs t) xs
      × IsSorted (compare_entries t) (sort_array xs t)
      × (keep (λ x. is_nil (compare_entries t k x)) (sort_array xs t)
          ≡ keep (λ x. is_nil (compare_entries t k x)) xs)
unfolding sort_array
sort_array_lem t xs k h hk = (
  sort-perm (compare_entries t) xs,
  sort-IsSorted (compare_entries-IsConsistent t) xs h,
  level-sort (compare_entries-IsConsistent t) k xs hk h,
)

level_missing :
    (x m : Entry)
    → m.1.modified_time ≡ none
    → (compare_entries date x m ≡ nil) × (compare_entries date m x ≡ nil)
unfolding compare_entries compare
level_missing x m h = ground arith

unchanged :
    (x m y : Entry) → m.1.modified_time ≡ none → sort_array (x ∷ m ∷ y ∷ []) date ≡ x ∷ m ∷ y ∷ []
unfolding sort_array sort insert
unchanged x m y h = ground (arith, level_missing x m h, level_missing y m h)

-- Without that condition it fails: an entry with no modification time stops a later date from
-- being put behind an earlier one, for it is level with both.
pub missing_date_breaks_order :
    (x m y : Entry)
    → m.1.modified_time ≡ none
    → compare_entries date x y ≡ positive
    → (sort_array (x ∷ m ∷ y ∷ []) date ≡ x ∷ m ∷ y ∷ [])
      × (¬ IsSorted (compare_entries date) (sort_array (x ∷ m ∷ y ∷ []) date))
missing_date_breaks_order x m y h k =
    let same = unchanged x m y h in (same, λ s. (rw same at s).0.1.0 k)
