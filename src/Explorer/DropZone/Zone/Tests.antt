-- ===== src/Explorer/DropZone/Zone/Tests.antt =====
-- A folder and a file are dropped on a directory.
use web_ssh_tool.Common.{true, none, [], ◌∷◌}
use web_ssh_tool.Common.Text.{lit}
use web_ssh_tool.Explorer.DropZone.{file, folder, nil, cons}
use web_ssh_tool.Explorer.DropZone.Zone.{Zone, entry, null, DataTransfer}
use web_ssh_tool.Explorer.Uploads as Uploads

abbrev transfer : DataTransfer
transfer = record {
  items = entry (folder (lit "a") (cons (file (lit "b")) nil)) ∷ null ∷ entry (file (lit "c")) ∷ [];
  has_entries = true;
  files = lit "c" ∷ [];
}

abbrev zone : Zone
zone = record { drag = true; hovering = none; dragging = none }
