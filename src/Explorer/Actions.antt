-- ===== src/Explorer/Actions.antt =====
-- The operations on several objects of the dialogs in
-- web/src/pages/home-page/file-explorer/directory-preview: DeleteDialog.tsx deletes or trashes them,
-- CopyToDialog.tsx copies or moves them.
pub mod Verdicts
pub mod Relations
mod Tests
use web_ssh_tool.Common.{
  ℕ, ◌+◌, Bool, true, false, not, ◌&&◌, ◌||◌, Option, none, some, List, [], ◌∷◌, every, any,
  if◌then◌else◌,
}
use web_ssh_tool.Common.Text.{Text, eq_text}
use web_ssh_tool.Explorer.Types.{FileType, file, directory, symbolic_link, Lstat}

-- A copy and a renaming go from a path to a name in a directory.
pub data Request : Type 0 where
  unlink rm trash : Text → Request
  cp rename : Text → Text → Text → Request

pub data Operation : Type 0 where
  delete_forever to_trash : Operation
  to_copy to_move : Text → Operation

pub delete_by_type : Option FileType → Text → Option Request
delete_by_type (some file) path = some (unlink path)
delete_by_type (some symbolic_link) path = some (rm path)
delete_by_type (some directory) path = some (rm path)
delete_by_type _ path = none

-- Whether `toCopy` and `toMove` take an object of the type.
abbrev pub is_movable : Option FileType → Bool
is_movable (some file) = true
is_movable (some directory) = true
is_movable _ = false

-- `f` makes the request, of the path and the base name.
pub transfer :
    (Text → Text → Request) → Option FileType → Option Text → Option Text → Option Request
transfer f t (some path) (some basename) = if is_movable t then some (f path basename) else none
transfer f t (some path) none = none
transfer f t none basename = none

-- What the operation asks the server for one object; nothing where it gives up with `false`.
unfoldable pub request_of : Operation → Lstat → Option Request
unfolding delete_by_type transfer
request_of delete_forever s = elim s.path [ none ↦ none | some path ↦ delete_by_type s.type path ]
request_of to_trash s = elim s.path [ none ↦ none | some path ↦ some (trash path) ]
request_of (to_copy new_path) s =
    transfer (λ path name. cp path new_path name) s.type s.path s.basename
request_of (to_move new_path) s =
    transfer (λ path name. rename path new_path name) s.type s.path s.basename

-- `Promise.all(objects.map(…))`; `is_error n` is `Rest.isError` of the answer for the object `n`.
unfoldable pub requests : Operation → List Lstat → List Request
requests op [] = []
requests op (s ∷ objects) = elim (request_of op s) [
  | none ↦ requests op objects
  | some r ↦ r ∷ requests op objects
]

abbrev pub outcome : Bool → Option Request → Bool
outcome is_error none = false
outcome is_error (some r) = not is_error

unfoldable pub results : Operation → (ℕ → Bool) → ℕ → List Lstat → List Bool
results op is_error n [] = []
results op is_error n (s ∷ objects) =
    outcome (is_error n) (request_of op s) ∷ results op is_error (n + 1) objects

-- The messages "… failed", "Some objects … failed" and "… succeed".
pub data Verdict : Type 0 where
  all_failed some_failed succeed : Verdict

unfoldable pub verdict : List Bool → Verdict
verdict value =
    if every not value then all_failed else if any not value then some_failed else succeed

-- What an operation did: its requests, the message, the path that the button of the message goes
-- to, and whether the dialog closes.
pub record Done : Type 0 where
  pub asked : List Request
  pub value : List Bool
  pub message : Verdict
  pub view : Option Text
  pub closes : Bool

-- The button "view" of `toCopy` and `toMove`.
abbrev view_of : Operation → Option Text
view_of delete_forever = none
view_of to_trash = none
view_of (to_copy new_path) = some new_path
view_of (to_move new_path) = some new_path

unfoldable pub perform : Operation → (ℕ → Bool) → List Lstat → Done
perform op is_error objects =
    let value = results op is_error 0 objects in
    let failed = every not value in
    record {
      asked = requests op objects;
      value = value;
      message = verdict value;
      view = if failed then none else view_of op;
      closes = not failed;
    }

-- `a === b` on paths.
abbrev pub same_path : Option Text → Option Text → Bool
same_path none none = true
same_path (some a) (some b) = eq_text a b
same_path _ _ = false

-- `objects.some((e, index) => e.path === path && value[index])`: the information dialog closes.
unfoldable pub closes_information : Option Text → List Lstat → List Bool → Bool
closes_information path [] value = false
closes_information path (e ∷ objects) [] = false
closes_information path (e ∷ objects) (v ∷ value) =
    (same_path e.path path && v) || closes_information path objects value

-- `toDelete` in full: what it did, and whether the dialog that shows `path` closes.
unfoldable pub delete_objects : (ℕ → Bool) → Option Text → List Lstat → Done × Bool
delete_objects is_error path objects =
    let done = perform delete_forever is_error objects in
    (done, done.closes && closes_information path objects done.value)
