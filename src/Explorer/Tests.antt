-- ===== src/Explorer/Tests.antt =====
-- Runs of the modelled file explorer.
use mathlib.Core.List.{Perm}
use web_ssh_tool.Common.{◌≡◌, Option, none, some, List, [], ◌∷◌, arith, keep}
use web_ssh_tool.Common.Text.{Text, lit}
use web_ssh_tool.Explorer.Types.{FileType, Lstat, Entry}
use web_ssh_tool.Explorer.Order.{compare, string_reserve_compare, type, compare_entries, sort_array}
use web_ssh_tool.Explorer.Order.Reversed.{string_reserve_compare_lem}
use web_ssh_tool.Explorer.Order.Sorting.{IsSorted, is_nil}
use web_ssh_tool.Explorer.Order.Entries.{sort_array_lem}

abbrev stats : Option FileType → Option Text → Lstat
stats t d = record {
  type = t;
  path = none;
  basename = none;
  size = none;
  modified_time = d;
  real_type = none;
  parent = none;
}

string_reserve_compare_example :
    string_reserve_compare (lit "b.ts") (lit "a.md")
    ≡ compare (some (lit "st.b")) (some (lit "dm.a"))
string_reserve_compare_example = string_reserve_compare_lem (lit "b.ts") (lit "a.md")

abbrev listing : List Entry
listing =
    (lit "b.txt", stats (some FileType.file) none)
    ∷ (lit "a", stats (some FileType.directory) none)
    ∷ (lit "c.md", stats (some FileType.file) none)
    ∷ []

sort_array_example :
    Perm (sort_array listing type) listing
    × IsSorted (compare_entries type) (sort_array listing type)
    × (keep
          (λ x. is_nil (compare_entries type (lit "c.md", stats (some FileType.file) none) x))
          (sort_array listing type)
        ≡ keep
            (λ x. is_nil (compare_entries type (lit "c.md", stats (some FileType.file) none) x))
            listing)
sort_array_example =
    sort_array_lem type listing (lit "c.md", stats (some FileType.file) none) (ground arith)
      (ground arith)
