-- ===== src/Explorer/Rows.antt =====
-- The class `List` of web/src/pages/home-page/file-explorer/DirectoryPreview.tsx with
-- web/src/components/EventListenerBuilder.tsx: the rows of a listing, which are drawn again only
-- when they are told to.
pub mod Current
mod Tests
use web_ssh_tool.Common.{
  ℕ, ◌+◌, Bool, true, false, not, ◌&&◌, ◌||◌, Option, none, some, List, [], ◌∷◌, map, keep, length,
  ltb, get_elem?, ◌==◌, if◌then◌else◌,
}
use web_ssh_tool.Explorer.Types.{Entry}

-- The property `fileList`, and the rows that are mounted, and so listen to `change`: their index and
-- the entry that each has drawn, or the fragment that stands for none.
pub record Rows : Type 0 where
  pub file_list : List Entry
  pub drawn : List (ℕ × Option Entry)

unfoldable pub create : List Entry → Rows
create file_list = record { file_list = file_list; drawn = [] }

-- The `builder` of a row.
unfoldable pub build : List Entry → ℕ → Option Entry
build file_list index = if ltb index (length file_list) then get_elem? file_list index else none

-- `itemCount`
abbrev pub item_count : Rows → ℕ
item_count r = length r.file_list + 2

-- The listeners of `change`.
unfoldable pub on_change : Rows → Rows
unfolding build
on_change r = record r { drawn = map (λ d. (d.0, build r.file_list d.0)) r.drawn }

-- `componentDidUpdate`, by whether `uploadItems` is another array; a `fileList` that is not another
-- array is none.
unfoldable pub did_update : Bool → Option (List Entry) → Rows → Rows
unfolding on_change
did_update other_uploads none r = if other_uploads then on_change r else r
did_update other_uploads (some file_list) r = on_change (record r { file_list = file_list })

-- The list scrolls: rows are mounted, within `itemCount`, and unmounted.
pub data Event : Type 0 where
  updated : Bool → Option (List Entry) → Event
  row_mounted row_unmounted : ℕ → Event

unfoldable pub step : Event → Rows → Rows
unfolding did_update build
step (updated other_uploads file_list) r = did_update other_uploads file_list r
step (row_mounted index) r =
    if ltb index (item_count r)
    then record r { drawn = (index, build r.file_list index) ∷ r.drawn }
    else r
step (row_unmounted index) r = record r { drawn = keep (λ d. not (d.0 == index)) r.drawn }

unfoldable pub run : List Event → Rows → Rows
unfolding step
run [] r = r
run (e ∷ es) r = run es (step e r)
