-- ===== src/Explorer/Uploads/Tests.antt =====
-- A run of the list of uploads.
use web_ssh_tool.Common.{some, true, List, [], ◌∷◌}
use web_ssh_tool.Common.Text.{lit}
use web_ssh_tool.Explorer.Upload as Upload
use web_ssh_tool.Explorer.Uploads.{create, Event, picked, happened, cleared, toggled_compress, run}
use web_ssh_tool.Explorer.Uploads.Removal.{IsKept, manager-IsKept}

abbrev events : List Event
events =
    picked (some (lit "/tmp")) (lit "a" ∷ lit "b" ∷ [])
    ∷ happened 0 Upload.closed
    ∷ toggled_compress
    ∷ happened 1 (Upload.creation_done true)
    ∷ cleared
    ∷ []

abbrev two_picked : List Event
two_picked = picked (some (lit "/tmp")) (lit "a" ∷ lit "b" ∷ []) ∷ []

manager-IsKept_example : IsKept (run events create)
manager-IsKept_example = manager-IsKept events
