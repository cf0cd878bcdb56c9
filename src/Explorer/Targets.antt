-- ===== src/Explorer/Targets.antt =====
-- The list of targets of
-- web/src/pages/home-page/file-explorer/directory-preview/CopyToDialog.tsx: the entries of the
-- directory that is shown, their order, and the names that are there already.
pub mod Ordering
pub mod Conflicts
mod Tests
use web_ssh_tool.Common.{
  ℕ, Bool, true, false, not, ◌&&◌, ◌||◌, Option, none, some, List, [], ◌∷◌, any, keep, length, ◌==◌,
  if◌then◌else◌,
}
use web_ssh_tool.Common.Text.{Text, lit, eq_text}
use web_ssh_tool.Explorer.Types.{FileType, directory, Lstat, Entry}
use web_ssh_tool.Explorer.Controller.{ControllerState}
use web_ssh_tool.Explorer.Controller as Controller
use web_ssh_tool.Explorer.Order.{sort, compare}
use web_ssh_tool.Explorer.Order.Signs.{Sign, negative, nil, positive}
use web_ssh_tool.Explorer.Files as Files

-- `directory`: the state, if it is one of a directory.
unfoldable pub shown_directory : Option ControllerState → Option (Lstat × List Entry)
shown_directory (some (Controller.directory s entries)) = some (s, entries)
shown_directory _ = none

abbrev pub is_directory : Entry → Bool
is_directory e = elim e.1.type [ some directory ↦ true | _ ↦ false ]

-- `startsWith('.')`
abbrev pub is_hidden : Text → Bool
is_hidden [] = false
is_hidden (c ∷ name) = c == 46

-- Those with the flag stand first.
abbrev pub flag_first : Bool → Bool → Sign
flag_first true false = negative
flag_first false true = positive
flag_first _ _ = nil

unfoldable pub compare_names : Text → Text → Sign
compare_names a b = elim (flag_first (not (is_hidden a)) (not (is_hidden b))) [
  | negative ↦ negative
  | positive ↦ positive
  | nil ↦ compare (some a) (some b)
]

-- The comparison of `entries`.
unfoldable pub compare_targets : Entry → Entry → Sign
compare_targets f s = elim (flag_first (is_directory f) (is_directory s)) [
  | negative ↦ negative
  | positive ↦ positive
  | nil ↦ compare_names f.0 s.0
]

unfoldable pub target_entries : Option (Lstat × List Entry) → Option (List Entry)
target_entries none = none
target_entries (some (s, entries)) = some (sort compare_targets entries)

-- `baseNames`, as the list that the set is made of.
unfoldable pub base_names : List Lstat → List Text
base_names [] = []
base_names (s ∷ objects) = elim s.basename [
  | none ↦ base_names objects
  | some name ↦ name ∷ base_names objects
]

-- The names that every object of JavaScript has.
abbrev pub inherited : List Text
inherited =
    lit "constructor"
    ∷ lit "__defineGetter__"
    ∷ lit "__defineSetter__"
    ∷ lit "hasOwnProperty"
    ∷ lit "__lookupGetter__"
    ∷ lit "__lookupSetter__"
    ∷ lit "isPrototypeOf"
    ∷ lit "propertyIsEnumerable"
    ∷ lit "toString"
    ∷ lit "valueOf"
    ∷ lit "__proto__"
    ∷ lit "toLocaleString"
    ∷ []

-- `entries[name] !== undefined`
unfoldable pub is_property : List Entry → Text → Bool
is_property entries name =
    any (λ e. eq_text e.0 name) entries || any (λ i. eq_text i name) inherited

abbrev pub is_repeat : Option (Lstat × List Entry) → Lstat → Bool
is_repeat none object = false
is_repeat (some (s, entries)) object = elim object.basename [
  | none ↦ false
  | some name ↦ is_property entries name
]

-- `repeats`.
unfoldable pub repeats : Option (Lstat × List Entry) → List Lstat → List Lstat
repeats d objects = keep (λ o. is_repeat d o) objects

-- The label of the button with the information.
pub data Label : Type 0 where
  total : ℕ → Label
  conflict : Label

unfoldable pub label : Option (Lstat × List Entry) → List Lstat → Label
label d objects = if length (repeats d objects) == 0 then total (length objects) else conflict

-- What stands in the middle of the dialog.
pub data Middle : Type 0 where
  rows : List Entry → Middle
  unknown_directory empty_directory : Middle

unfoldable pub middle : Option (Lstat × List Entry) → Middle
middle d = elim (target_entries d) [
  | none ↦ unknown_directory
  | some [] ↦ empty_directory
  | some (e ∷ entries) ↦ rows (e ∷ entries)
]

-- A row: whether it is marked, its icon, and the path that a click goes to.
pub record Row : Type 0 where
  pub selected : Bool
  pub icon : Files.Icon
  pub target : Option Text

unfoldable pub row : List Text → Entry → Row
row names e = record {
  selected = any (λ n. eq_text n e.0) names;
  icon = if is_directory e then Files.folder else Files.file_icon e.1.type none;
  target = if is_directory e then e.1.path else none;
}

-- Whether the copy dialog itself is open.
pub is_open : Bool → Bool → Bool → Bool → Bool
is_open open_ open_info open_new information_open =
    open_ && (not open_info && (not open_new && not information_open))
