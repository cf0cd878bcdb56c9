-- ===== src/Explorer/Actions/Tests.antt =====
-- Runs of the operations on several objects.
use web_ssh_tool.Common.{String, ℕ, ◌≡◌, refl, Bool, none, some, List, [], ◌∷◌, length, ◌==◌}
use web_ssh_tool.Common.Text.{lit}
use web_ssh_tool.Explorer.Types.{FileType, file, directory, socket, Lstat}
use web_ssh_tool.Explorer.Actions.{
  unlink, rm, delete_by_type, delete_forever, requests, perform, request_of,
}
use web_ssh_tool.Explorer.Actions.Verdicts.{IsTold, perform-IsTold}

abbrev object : FileType → String → Lstat
object t name = record {
  type = some t;
  path = some (lit name);
  basename = some (lit name);
  size = none;
  modified_time = none;
  real_type = none;
  parent = none;
}

abbrev objects : List Lstat
objects = object file "a" ∷ object socket "s" ∷ object directory "d" ∷ []

-- The answer for the third object is an error.
abbrev fails : ℕ → Bool
fails n = n == 2

requests-deleted : requests delete_forever objects ≡ unlink (lit "a") ∷ rm (lit "d") ∷ []
unfolding requests request_of delete_by_type
requests-deleted = refl

perform-IsTold_example : IsTold (length objects) (perform delete_forever fails objects)
perform-IsTold_example = perform-IsTold delete_forever fails objects
