-- ===== src/Explorer/Listing.antt =====
-- `DirectoryPreView` of web/src/pages/home-page/file-explorer/DirectoryPreview.tsx: what it keeps
-- of a directory while the listing changes, with the handlers of directory-preview/ToolsBar.tsx that
-- work on it. An entry stands for the object under its name in the current listing.
pub mod Updates
pub mod Selecting
pub mod Selection
mod Tests
use web_ssh_tool.Common.{
  ℕ, Bool, true, false, not, ◌&&◌, ◌||◌, Option, none, some, List, [], ◌∷◌, ◌++◌, map, any, keep,
  find, length, if◌then◌else◌, ◌==◌,
}
use web_ssh_tool.Common.Text.{Text, eq_text}
use web_ssh_tool.Explorer.Types.{Lstat, Entry}
use web_ssh_tool.Explorer.Actions.{same_path}
use web_ssh_tool.Explorer.Order.{SortType, sort_array}

-- The states of the information dialog, of the dialog that moves a file and of the one that asks
-- before a preview.
pub record Information : Type 0 where
  pub open_ : Bool
  pub stat : Lstat
  pub dir_path : Text

pub record FileMove : Type 0 where
  pub open_ : Bool
  pub filename : Text
  pub path : Text
  pub target : Text

pub record RequestPreview : Type 0 where
  pub open_ : Bool
  pub lstat : Option Lstat

-- `selected` is a set of objects, and `none` in it is `undefined`.
pub record View : Type 0 where
  pub path : Option Text
  pub entries : List Entry
  pub dragging : Option Text
  pub on_selecting : Bool
  pub selected : List (Option Entry)
  pub information : Information
  pub file_move : FileMove
  pub request_preview : RequestPreview

abbrev is_hidden : Text → Bool
is_hidden [] = false
is_hidden (c ∷ name) = c == 46

-- `fileList`.
unfoldable pub file_list : Bool → SortType → View → List Entry
file_list show_all sort v =
    sort_array (keep (λ e. (show_all || v.on_selecting) || not (is_hidden e.0)) v.entries) sort

-- The effect on `path`.
unfoldable pub on_path : View → View
on_path v = record v {
  dragging = none;
  selected = [];
  on_selecting = false;
  information = record v.information { open_ = false };
  file_move = record v.file_move { open_ = false };
  request_preview = record v.request_preview { open_ = false };
}

-- `e.has(path)`, and `l.find(v => v.path === path)`.
abbrev pub has_path : Option Text → List Entry → Bool
has_path path entries = any (λ e. same_path e.1.path path) entries

abbrev pub find_path : Option Text → List Entry → Option Entry
find_path path entries = find (λ e. same_path e.1.path path) entries

-- `entries[name]`.
abbrev pub entry_of : Text → List Entry → Option Entry
entry_of name entries = find (λ e. eq_text e.0 name) entries

abbrev pub same_object : Option Entry → Option Entry → Bool
same_object none none = true
same_object (some e) (some f) = eq_text e.0 f.0
same_object _ _ = false

-- `new Set(list)`.
unfoldable pub to_set : List (Option Entry) → List (Option Entry)
to_set [] = []
to_set (o ∷ os) = o ∷ keep (λ p. not (same_object o p)) (to_set os)

-- The entries that `c.filter(…).map(…)` gives for the objects selected before; an `undefined` among
-- them, on which reading a field would throw, is skipped.
unfoldable pub reselected : List Entry → List (Option Entry) → List (Option Entry)
reselected entries [] = []
reselected entries (none ∷ os) = reselected entries os
reselected entries (some v ∷ os) =
    let rest = reselected entries os in
    elim v.1.basename [
      | none ↦ rest
      | some name ↦ if has_path v.1.path entries then entry_of name entries ∷ rest else rest
    ]

unfoldable pub updated_information : List Entry → Information → Information
updated_information entries current =
    if has_path current.stat.path entries
    then elim (find_path current.stat.path entries) [
      | none ↦ record current { open_ = false }
      | some e ↦ record current { stat = e.1 }
    ]
    else record current { open_ = false }

-- The path of `v.lstat?.path`.
abbrev path_of : Option Lstat → Option Text
path_of none = none
path_of (some s) = s.path

-- The effect on `entries`.
unfoldable pub on_entries : View → View
unfolding to_set reselected updated_information
on_entries v = record v {
  selected = to_set (reselected v.entries v.selected);
  information = updated_information v.entries v.information;
  file_move =
      if has_path (some v.file_move.path) v.entries && has_path (some v.file_move.target) v.entries
      then v.file_move
      else record v.file_move { open_ = false };
  request_preview =
      if has_path (path_of v.request_preview.lstat) v.entries
      then v.request_preview
      else record v.request_preview { open_ = false };
}

-- A new listing: the effects run in their order, the first one if the path is another.
unfoldable pub update : Option Text → List Entry → View → View
unfolding on_path on_entries
update path entries v =
    let next = record v { path = path; entries = entries } in
    on_entries (if same_path v.path path then next else on_path next)

-- `setDragging` and `setOnSelecting`.
pub set_dragging : Option Text → View → View
set_dragging d v = record v { dragging = d }

pub set_on_selecting : Bool → View → View
set_on_selecting b v = record v { on_selecting = b }

-- Which bar is shown.
pub data Bar : Type 0 where
  selecting_bar tools_bar dragging_bar : Bar

pub bar : View → Bar
bar v =
    if v.on_selecting
    then selecting_bar
    else elim v.dragging [ none ↦ tools_bar | some d ↦ dragging_bar ]

-- The checkbox of `SelectingToolsBar`.
pub data Checked : Type 0 where
  checked unchecked mixed : Checked

unfoldable pub check : View → Checked
check v =
    if length v.entries == length v.selected
    then checked
    else if length v.selected == 0
    then unchecked
    else mixed

unfoldable pub toggle_all : View → View
unfolding check
toggle_all v = elim (check v) [
  | checked ↦ record v { selected = [] }
  | _ ↦ record v { selected = map (λ e. some e) v.entries }
]

-- The click on an entry while selecting: `v.delete(stats)`, or else `v.add(stats)`.
unfoldable pub toggle : Entry → View → View
toggle e v =
    let others = keep (λ o. not (same_object (some e) o)) v.selected in
    if any (λ o. same_object (some e) o) v.selected
    then record v { selected = others }
    else record v { selected = v.selected ++ some e ∷ [] }
