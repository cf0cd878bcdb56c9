-- ===== src/Explorer/Files/Drops.antt =====
-- Drops and clicks on an entry (FileListTile.tsx).
use web_ssh_tool.Common.{◌≡◌, ◌≢◌, refl, Bool, some, [], arith}
use web_ssh_tool.Common.Text.{Text, eq_text_iff}
use web_ssh_tool.Explorer.Types.{Lstat}
use web_ssh_tool.Explorer.Files.{
  Kind, directory_kind, disabled_kind, file_kind, kind_of, on_drop, on_click, cd,
}

on_drop_kind :
    (uploading : Bool) (s : Lstat) (filename path target : Text) (k : Kind)
    → kind_of uploading s.type s.real_type ≡ k
    → on_drop uploading s filename path ≡ some target
    → (k ≡ directory_kind)
      × (s.path ≡ some target)
      × (target ≢ path)
      × (path ≢ [])
      × (filename ≢ [])
unfolding on_drop
on_drop_kind uploading s filename path target directory_kind e h =
    ground (arith, eq_text_iff target path, eq_text_iff target target)
on_drop_kind uploading s filename path target file_kind e h = ground arith
on_drop_kind uploading s filename path target disabled_kind e h = ground arith

-- A drop opens the dialog that moves a file only for a file with a path and a name, onto an entry
-- that is a directory, or a link to one, with another path than the file's; a click on such an
-- entry goes to the same path.
pub on_drop_lem :
    (name : Text) (uploading : Bool) (s : Lstat) (filename path target : Text)
    → on_drop uploading s filename path ≡ some target
    → (s.path ≡ some target)
      × (target ≢ path)
      × (path ≢ [])
      × (filename ≢ [])
      × (on_click name uploading s ≡ cd target)
unfolding on_click
on_drop_lem name uploading s filename path target h =
    let facts =
      on_drop_kind uploading s filename path target (kind_of uploading s.type s.real_type) refl h in
    ground (arith, facts)
