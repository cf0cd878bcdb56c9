-- ===== src/Explorer/Uploads/Clicks.antt =====
-- The button of a row in the list of uploads (`UploadItem` of MultiFileExplorer.tsx).
use web_ssh_tool.Common.{ℕ, ◌≡◌, ◌<◌, true, false, All, ◌==◌}
use web_ssh_tool.Common.Text.{Text}
use web_ssh_tool.Explorer.Upload as Upload
use web_ssh_tool.Explorer.Upload.{start}
use web_ssh_tool.Explorer.Upload.Ended.{HasEnded}
use web_ssh_tool.Explorer.Uploads.{Item, Manager, is_closed}

-- A job of the id does not run any more.
abbrev IsDone : ℕ → Item → Type 0
IsDone id i = (i.id == id) ≡ true → HasEnded i.job

abbrev pub IsOther : ℕ → Item → Type 0
IsOther id i = (i.id == id) ≡ false

abbrev IsClosing : ℕ → Item → Type 0
IsClosing id i = (i.id == id) ≡ true → is_closed i ≡ true

-- The jobs of the id on the list have ended, and the id is not given again.
record HasClicked (id : ℕ) (m : Manager) : Type 0 where
  done : All (IsDone id) m.items
  given : id < m.next
