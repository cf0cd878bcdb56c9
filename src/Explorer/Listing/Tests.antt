-- ===== src/Explorer/Listing/Tests.antt =====
-- Runs of the listing of a directory.
use web_ssh_tool.Common.{refl, true, false, none, some, List, [], ◌∷◌, All, String}
use web_ssh_tool.Common.Text.{Text, lit}
use web_ssh_tool.Explorer.Types.{file, Lstat, Entry}
use web_ssh_tool.Explorer.Listing.{View, update}
use web_ssh_tool.Explorer.Listing.Updates.{IsNamed, Stands, update-Stands}

abbrev stats : Text → Lstat
stats name = record {
  type = some file;
  path = some (47 ∷ name);
  basename = some name;
  size = none;
  modified_time = none;
  real_type = none;
  parent = none;
}

abbrev entry : String → Entry
entry name = (lit name, stats (lit name))

-- The name behind the slash.
abbrev name_of : Text → Text
name_of [] = []
name_of (c ∷ name) = name

abbrev view : View
view = record {
  path = some (lit "/");
  entries = entry "a" ∷ entry "b" ∷ [];
  dragging = none;
  on_selecting = true;
  selected = some (entry "a") ∷ some (entry "b") ∷ [];
  information = record { open_ = true; stat = stats (lit "b"); dir_path = lit "/" };
  file_move = record { open_ = false; filename = []; path = []; target = [] };
  request_preview = record { open_ = false; lstat = none };
}

abbrev changed : List Entry
changed = entry "b" ∷ entry "c" ∷ []

entry-IsNamed : (name : Text) → IsNamed name_of (name, stats name)
entry-IsNamed name = record { path = 47 ∷ name; at_path = refl; basename = refl; key = refl }

update-Stands_example : All (Stands changed) (update (some (lit "/")) changed view).selected
update-Stands_example =
    update-Stands name_of (some (lit "/")) changed view
      (entry-IsNamed (lit "b"), (entry-IsNamed (lit "c"), tt))
      (entry-IsNamed (lit "a"), (entry-IsNamed (lit "b"), tt))
