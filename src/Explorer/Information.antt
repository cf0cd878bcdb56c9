-- ===== src/Explorer/Information.antt =====
-- The dialog of web/src/pages/home-page/file-explorer/directory-preview/InformationDialog.tsx: what
-- it shows of an object, and its buttons.
mod Tests
use web_ssh_tool.Common.{ℕ, Bool, true, false, not, ◌&&◌, Option, none, some, List, [], ◌∷◌, ◌++◌}
use web_ssh_tool.Common.Text.{Text}
use web_ssh_tool.Explorer.Types.{FileType, file, directory}
use web_ssh_tool.Tools.{Size, file_size}

-- `state.stat`, taken apart: `type` has `null` and `undefined` apart, `amount` is the number of the
-- entries if there are any, and `rest` are the other fields by their keys.
pub record Stat : Type 0 where
  pub type : Option (Option FileType)
  pub path : Option Text
  pub basename : Option Text
  pub size : Option ℕ
  pub amount : Option ℕ
  pub rest : List (Text × Option Text)

-- A line of the dialog; `none` is `<UNKNOWN>`, and `undefined` for a size.
pub data Line : Type 0 where
  path_line basename_line : Option Text → Line
  type_line : Option FileType → Line
  amount_line : ℕ → Line
  size_line : Option Size → Line
  rest_line : Text → Text → Line

abbrev type_lines : Option (Option FileType) → List Line
type_lines none = []
type_lines (some t) = type_line t ∷ []

abbrev size_of : Option ℕ → Option Size
size_of none = none
size_of (some n) = some (file_size n)

abbrev amount_or_size : Option ℕ → Option ℕ → Line
amount_or_size (some n) size = amount_line n
amount_or_size none size = size_line (size_of size)

pub rest_lines : List (Text × Option Text) → List Line
rest_lines [] = []
rest_lines ((key, none) ∷ rest) = rest_lines rest
rest_lines ((key, some value) ∷ rest) = rest_line key value ∷ rest_lines rest

pub lines : Stat → List Line
unfolding rest_lines
lines s =
    path_line s.path
    ∷ basename_line s.basename
    ∷ (type_lines s.type ++ amount_or_size s.amount s.size ∷ rest_lines s.rest)

-- Whether the buttons that rename and download are there.
pub has_buttons : Option FileType → Option Text → Bool
has_buttons t none = false
has_buttons (some file) (some path) = true
has_buttons (some directory) (some path) = true
has_buttons _ (some path) = false

-- The dialog is shown while neither of the two others is.
pub is_shown : Bool → Bool → Bool → Bool
is_shown open_ rename_open delete_open = (open_ && not rename_open) && not delete_open
