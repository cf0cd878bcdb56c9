-- ===== src/Explorer/Toolbar.antt =====
-- web/src/pages/home-page/file-explorer/directory-preview/ToolsBar.tsx: the buttons and the menu of
-- the bar, the buttons of the selecting bar, and the places of the dragging bar that take a drop.
pub mod Drops
mod Tests
use web_ssh_tool.Common.{
  Bool, true, false, not, Option, none, some, List, [], ◌∷◌, ◌++◌, find, if◌then◌else◌,
}
use web_ssh_tool.Common.Text.{Text}
use web_ssh_tool.Home.{Layout, both, file_explorer}
use web_ssh_tool.Explorer.Types.{Lstat, Entry}
use web_ssh_tool.Explorer.Actions.{same_path}
use web_ssh_tool.Explorer.Listing.{FileMove, Information}
use web_ssh_tool.Explorer.Order.{SortType}
use web_ssh_tool.Explorer.Files.{on_drop_parent}

-- The state of the dialogs that delete and that copy.
pub record ObjectsDialog : Type 0 where
  pub open_ : Bool
  pub objects : List Lstat

-- `DropTargetButton`: its `hovering` and whether its `onDrop` is called.
pub data Drag : Type 0 where
  over drag_enter drag_leave drop : Drag

pub on_drag : Drag → Bool → Bool × Bool
on_drag over hovering = (hovering, false)
on_drag drag_enter hovering = (true, false)
on_drag drag_leave hovering = (false, false)
on_drag drop hovering = (false, true)

-- `Object.values(state.entries).find(v => v.path === path)`
unfoldable pub entry_at : Text → List Entry → Option Lstat
entry_at path entries = elim (find (λ e. same_path e.1.path (some path)) entries) [
  | none ↦ none
  | some e ↦ some e.1
]

-- `DraggingToolbar.CopyButton` and `DraggingToolbar.DeleteButton`: the dialog that opens.
unfoldable pub drop_copy : Text → List Entry → Option ObjectsDialog
unfolding entry_at
drop_copy path entries = elim (entry_at path entries) [
  | none ↦ none
  | some s ↦ some (record { open_ = true; objects = s ∷ [] })
]

unfoldable pub drop_delete : Text → List Entry → Option ObjectsDialog
unfolding entry_at
drop_delete path entries = elim (entry_at path entries) [
  | none ↦ none
  | some s ↦ some (record { open_ = true; objects = s ∷ [] })
]

-- The arrow of `DraggingToolbar`: the dialog that moves a file to the parent of the directory.
unfoldable pub drop_arrow : Option Text → Text → Text → Option FileMove
drop_arrow parent filename path = elim (on_drop_parent parent filename path) [
  | none ↦ none
  | some target ↦ some (record { open_ = true; filename = filename; path = path; target = target })
]

-- The buttons of the selecting bar, which are disabled for no objects: the dialogs, and the paths
-- of the download.
pub select_dialog : List Lstat → Option ObjectsDialog
select_dialog [] = none
select_dialog (s ∷ objects) = some (record { open_ = true; objects = s ∷ objects })

unfoldable pub paths : List Lstat → List Text
paths [] = []
paths (s ∷ objects) = elim s.path [ none ↦ paths objects | some p ↦ p ∷ paths objects ]

pub select_download : List Lstat → Option (List Text)
select_download [] = none
select_download (s ∷ objects) = some (paths (s ∷ objects))

-- `FileExplorer.Config`.
pub record Config : Type 0 where
  pub show_all : Bool
  pub sort : SortType
  pub upload_compress : Bool

-- The dialogs for a new file and a new directory.
pub record NewDialog : Type 0 where
  pub open_ : Bool
  pub path : Text

-- The states of `MoreButton`: `open`, and whether a frame is awaited that opens the menu. The
-- effect listens to the clicks of the window exactly while the menu is open.
pub record More : Type 0 where
  pub open_ : Bool
  pub frame : Bool
  pub file : NewDialog
  pub directory : NewDialog
  pub config : Config
  pub layout : Layout
  pub information : Option Information

pub data Item : Type 0 where
  about new_file new_directory toggle_terminal toggle_hidden toggle_compress : Item
  sort_by : SortType → Item

pub data Click : Type 0 where
  on_more next_frame elsewhere close_file close_directory : Click
  on_item : Item → Click

-- The handlers of the items, with the directory: its parent, its path and its own `Lstat`.
pub on_item_click : Option Text → Option Text → Lstat → Item → More → More
on_item_click none path stat about m = m
on_item_click (some parent) path stat about m = record m {
  information = some (record { open_ = true; stat = stat; dir_path = parent });
}
on_item_click parent none stat new_file m = m
on_item_click parent (some dest) stat new_file m = record m {
  file = record { open_ = true; path = dest };
}
on_item_click parent none stat new_directory m = m
on_item_click parent (some dest) stat new_directory m = record m {
  directory = record { open_ = true; path = dest };
}
on_item_click parent path stat (sort_by t) m = record m { config = record m.config { sort = t } }
on_item_click parent path stat toggle_terminal m = record m {
  layout = elim m.layout [ both ↦ file_explorer | _ ↦ both ];
}
on_item_click parent path stat toggle_hidden m = record m {
  config = record m.config { show_all = not m.config.show_all };
}
on_item_click parent path stat toggle_compress m = record m {
  config = record m.config { upload_compress = not m.config.upload_compress };
}

-- The listener of the window.
pub window_click : More → More
window_click m = record m { open_ = false }

-- A click with what it makes of the menu: it reaches the window after the element.
pub step : Option Text → Option Text → Lstat → Click → More → More
unfolding on_item_click window_click
step parent path stat on_more m = window_click (record m { frame = true })
step parent path stat next_frame m = if m.frame then record m { open_ = true; frame = false } else m
step parent path stat elsewhere m = window_click m
step parent path stat close_file m =
    window_click (record m { file = record m.file { open_ = false } })
step parent path stat close_directory m =
    window_click (record m { directory = record m.directory { open_ = false } })
step parent path stat (on_item i) m =
    if m.open_ then window_click (on_item_click parent path stat i m) else m

-- Which items can be clicked: the first needs a parent, the next two a path.
pub items : Option Text → Option Text → List Item
items parent path =
    elim parent [ none ↦ [] | some p ↦ about ∷ [] ]
    ++ (elim path [ none ↦ [] | some p ↦ new_file ∷ new_directory ∷ [] ]
        ++ sort_by SortType.alphabetically
          ∷ sort_by SortType.date
          ∷ sort_by SortType.type
          ∷ toggle_terminal
          ∷ toggle_hidden
          ∷ toggle_compress
          ∷ [])

-- The button with the arrow: whether it is enabled and can be dragged, and what a drag carries.
pub arrow : Option Text → Bool × Option Text
arrow none = (false, none)
arrow (some parent) = (true, some parent)
