-- ===== src/Explorer/Rows/Tests.antt =====
-- Rows of a listing that shrinks while it is shown.
use web_ssh_tool.Common.{◌≡◌, refl, false, true, none, some, List, [], ◌∷◌}
use web_ssh_tool.Common.Text.{lit}
use web_ssh_tool.Explorer.Types.{Lstat, Entry}
use web_ssh_tool.Explorer.Rows.{
  create, Event, updated, row_mounted, row_unmounted, build, on_change, did_update, step, run,
}

abbrev nothing : Lstat
nothing = record {
  type = none;
  path = none;
  basename = none;
  size = none;
  modified_time = none;
  real_type = none;
  parent = none;
}

abbrev entries : List Entry
entries = (lit "a", nothing) ∷ (lit "b", nothing) ∷ []

abbrev events : List Event
events =
    row_mounted 0
    ∷ row_mounted 1
    ∷ row_mounted 3
    ∷ updated false (some ((lit "b", nothing) ∷ []))
    ∷ row_unmounted 3
    ∷ updated true none
    ∷ []

-- The second row is gone, and the third never was there.
redrawn : (run events (create entries)).drawn ≡ (1, none) ∷ (0, some (lit "b", nothing)) ∷ []
unfolding run step did_update on_change build create
redrawn = refl
