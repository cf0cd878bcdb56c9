-- ===== src/Explorer/Navigation.antt =====
-- web/src/pages/home-page/file-explorer: the dialog to go to a path (common/GoToDialog.tsx), the bar
-- that opens it (common/NavigatorBar.tsx) and the view of a file (FilePreview.tsx).
mod Tests
use web_ssh_tool.Common.{Bool, true, false, Option, none, some, List, [], ◌∷◌, if◌then◌else◌}
use web_ssh_tool.Common.Text.{Text}
use web_ssh_tool.Explorer.Types.{Lstat}
use web_ssh_tool.Explorer.Listing.{RequestPreview}

-- The state of the dialog in FileExplorer, and the text in its field.
pub record GoTo : Type 0 where
  pub open_ : Bool
  pub path : Text
  pub value : Text

-- The effect on `open` and `path`.
pub fill : GoTo → GoTo
fill g = if g.open_ then record g { value = g.path } else g

-- `open_at` is `setGoToDialog` of the bar with its path. The effect runs for it in any case that can
-- come: the dialog is modal, so it was closed before.
pub data Event : Type 0 where
  open_at type_text : Text → Event
  submit close : Event

-- The dialog after an event, and the path that the explorer is told to go to.
pub step : Event → GoTo → GoTo × Option Text
unfolding fill
step (open_at path) g = (fill (record g { open_ = true; path = path }), none)
step (type_text t) g = (record g { value = t }, none)
step submit g = (record g { open_ = false }, some g.value)
step close g = (record g { open_ = false }, none)

pub run : List Event → GoTo → GoTo × List Text
unfolding step
run [] g = (g, [])
run (e ∷ es) g =
    let (g', gone) = step e g in
    let (g'', more) = run es g' in (g'', elim gone [ none ↦ more | some path ↦ path ∷ more ])

-- The buttons of the view of a file: what is downloaded, the dialog of the preview, and the path of
-- the bar below, if it is there.
pub download_button : Lstat → Option Text
download_button s = s.path

pub preview_button : Lstat → RequestPreview
preview_button s = record { open_ = true; lstat = some s }

pub navigator_path : Lstat → Option Text
navigator_path s = s.path
