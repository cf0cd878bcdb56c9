-- ===== src/Explorer/DropZone/Zone/Listed.antt =====
-- The files of a drop in the list of uploads (DropZone.tsx, MultiFileExplorer.tsx).
use web_ssh_tool.Common.{
  ℕ, Bool, true, false, ◌&&◌, List, [], ◌∷◌, ◌++◌, map, keep, leb, length, if◌then◌else◌,
}
use web_ssh_tool.Common.Text.{Text}
use web_ssh_tool.Explorer.DropZone.Depth.{files, fits}
use web_ssh_tool.Explorer.DropZone.Zone.{Item, entry, null, throws, DataTransfer, by_entries, Zone}
use web_ssh_tool.Explorer.Uploads as Uploads
use web_ssh_tool.Explorer.Uploads.{Manager}

-- The name and the place of each job in the list.
abbrev pub place : Uploads.Item → Text × List Text
place i = (i.name, i.dest)

abbrev pub listed : Manager → List (Text × List Text)
listed m = map place m.items

-- Each upload that a drop asks for is one call of `_upload`.
unfoldable pub upload_each : List (Text × List Text) → Manager → Manager
upload_each [] m = m
upload_each ((name, dest) ∷ fs) m = upload_each fs (Uploads.upload name dest m)

-- The files of the entries that lie at most two folders deep, with their places.
abbrev pub dropped_files : Text → List Item → List (Text × List Text)
dropped_files dir_path [] = []
dropped_files dir_path (entry e ∷ items) =
    keep (λ f. leb (length f.1) 3) (files (dir_path ∷ []) e) ++ dropped_files dir_path items
dropped_files dir_path (_ ∷ items) = dropped_files dir_path items

-- No item throws, and no folder holds more entries than one reading gives.
abbrev pub all_fit : ℕ → List Item → Bool
all_fit batch [] = true
all_fit batch (entry e ∷ items) = fits batch e && all_fit batch items
all_fit batch (null ∷ items) = all_fit batch items
all_fit batch (throws ∷ items) = false

-- What a drop should add to the list.
abbrev pub expected : Text → DataTransfer → List (Text × List Text)
expected dir_path t =
    if by_entries t
    then dropped_files dir_path t.items
    else map (λ name. (name, dir_path ∷ [])) t.files
