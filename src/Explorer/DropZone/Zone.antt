-- ===== src/Explorer/DropZone/Zone.antt =====
-- The component `DropZone` of
-- web/src/pages/home-page/file-explorer/directory-preview/DropZone.tsx: its states and its handlers,
-- with what a drop uploads.
pub mod Listed
mod Tests
use web_ssh_tool.Common.{
  ℕ, Bool, true, false, not, ◌&&◌, ◌||◌, Option, none, some, List, [], ◌∷◌, ◌++◌, map,
  if◌then◌else◌,
}
use web_ssh_tool.Common.Text.{Text}
use web_ssh_tool.Explorer.DropZone.{Node, Op, upload, upload_item}

-- The target of a `dragenter` with its `data-dropzone`, if it is an element that has one.
pub record Target : Type 0 where
  pub element : ℕ
  pub dropzone : Option Text

-- `drag` and `hovering`, and the property `dragging`, the path of an entry that is dragged.
pub record Zone : Type 0 where
  pub drag : Bool
  pub hovering : Option Target
  pub dragging : Option Text

pub create : Option Text → Zone
create dragging = record { drag = false; hovering = none; dragging = dragging }

-- What `webkitGetAsEntry` of an item gives; it is null for an item that is no file.
pub data Item : Type 0 where
  entry : Node → Item
  null throws : Item

-- `event.dataTransfer`, and whether items have `webkitGetAsEntry`.
pub record DataTransfer : Type 0 where
  pub items : List Item
  pub has_entries : Bool
  pub files : List Text

abbrev pub is_some : {A : Type 0} → Option A → Bool
is_some none = false
is_some (some a) = true

abbrev pub non_empty : {A : Type 0} → List A → Bool
non_empty [] = false
non_empty (x ∷ xs) = true

-- `items && items.length > 0 && 'webkitGetAsEntry' in items[0]`
abbrev pub by_entries : DataTransfer → Bool
by_entries t = non_empty t.items && t.has_entries

unfoldable pub on_drag_enter : Option Target → Zone → Zone
on_drag_enter none z = z
on_drag_enter (some target) z =
    if is_some z.dragging && is_some target.dropzone then record z { hovering = some target } else z

unfoldable pub on_drag_leave : Zone → Zone
on_drag_leave z = record z { drag = false }

unfoldable pub on_drag_over : DataTransfer → Zone → Zone
on_drag_over t z = if by_entries t || non_empty t.files then record z { drag = true } else z

-- The property `dragging` changes, and the effect with it.
unfoldable pub set_dragging : Option Text → Zone → Zone
set_dragging none z = record z { dragging = none; hovering = none }
set_dragging (some path) z = record z { dragging = some path }

-- The border and the opacity while something can be dropped.
abbrev pub is_marked : Zone → Bool
is_marked z = z.drag && not (is_some z.dragging)

-- What a drop asks for, and whether "Upload failed" is shown.
pub record Dropped : Type 0 where
  pub ops : List Op
  pub failed : Bool

module _ (mkdir_fails : List Text → Bool) (batch : ℕ) where
  -- The loop over the items, up to the first that throws.
  unfoldable pub upload_entries : Text → List Item → Dropped
  upload_entries dir_path [] = record { ops = []; failed = false }
  upload_entries dir_path (null ∷ items) = upload_entries dir_path items
  upload_entries dir_path (throws ∷ items) = record { ops = []; failed = true }
  upload_entries dir_path (entry e ∷ items) =
      let rest = upload_entries dir_path items in
      record rest { ops = upload_item mkdir_fails batch (dir_path ∷ []) e 0 ++ rest.ops }

  abbrev pub upload_files : Text → List Text → List Op
  upload_files dir_path [] = []
  upload_files dir_path (name ∷ files) = upload name (dir_path ∷ []) ∷ upload_files dir_path files

  unfoldable pub drop : Option Text → DataTransfer → Dropped
  unfolding upload_entries
  drop none t = record { ops = []; failed = false }
  drop (some dir_path) t =
      let d : Dropped =
        if by_entries t
        then upload_entries dir_path t.items
        else record { ops = []; failed = false } in
      if by_entries t && not d.failed
      then d
      else record d { ops = d.ops ++ upload_files dir_path t.files }

  -- `onDrop`.
  unfoldable pub on_drop : Option Text → DataTransfer → Zone → Zone × Dropped
  unfolding drop
  on_drop dir_path t z = (record z { drag = false }, drop dir_path t)
