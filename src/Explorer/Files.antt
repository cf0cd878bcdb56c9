-- ===== src/Explorer/Files.antt =====
-- How the explorer takes a file: `FileListTile` and its helpers of
-- web/src/pages/home-page/file-explorer/directory-preview/FileListTile.tsx and `fileIcon` of
-- web/src/pages/home-page/file-explorer/common/FileIcon.ts.
pub mod Kinds
pub mod Extensions
pub mod Drops
use web_ssh_tool.Common.{
  ℕ, ◌+◌, Bool, true, false, not, ◌&&◌, ◌||◌, Option, none, some, List, [], ◌∷◌, map, any, keep,
  ltb, leb, ◌==◌, if◌then◌else◌,
}
use web_ssh_tool.Common.Split.{split_on}
use web_ssh_tool.Common.Text.{Text, lit, eq_text}
use web_ssh_tool.Explorer.Types.{
  FileType, file, directory, block_device, character_device, symbolic_link, fifo, socket, Lstat,
}
use web_ssh_tool.Explorer.Actions.{same_path}

-- `toLowerCase` on ASCII; no other letter has one of the extensions below for its lower case but
-- the Kelvin sign, which is left alone here.
abbrev lower_unit : ℕ → ℕ
lower_unit c = if leb b'A' c && leb c b'Z' then c + 32 else c

unfoldable pub to_lower_case : Text → Text
to_lower_case t = map lower_unit t

-- A `switch` on a text.
abbrev pub one_of : List Text → Text → Bool
one_of cases t = any (λ c. eq_text c t) cases

abbrev pub images : List Text
images =
    lit "apng"
    ∷ lit "avif"
    ∷ lit "jpg"
    ∷ lit "jpeg"
    ∷ lit "pjpeg"
    ∷ lit "jfif"
    ∷ lit "pjp"
    ∷ lit "png"
    ∷ lit "svg"
    ∷ lit "webp"
    ∷ lit "tif"
    ∷ lit "tiff"
    ∷ lit "ico"
    ∷ lit "cur"
    ∷ lit "bmp"
    ∷ lit "gif"
    ∷ lit "raw"
    ∷ []

abbrev pub audios : List Text
audios = lit "mp3" ∷ lit "ogg" ∷ lit "flac" ∷ lit "acc" ∷ lit "alac" ∷ lit "wav" ∷ lit "aiff" ∷ []

abbrev pub videos : List Text
videos = lit "mp4" ∷ lit "flv" ∷ lit "avi" ∷ lit "mkv" ∷ lit "webm" ∷ []

abbrev pub archives : List Text
archives =
    lit "zip"
    ∷ lit "7z"
    ∷ lit "tar"
    ∷ lit "txz"
    ∷ lit "tgz"
    ∷ lit "bz2"
    ∷ lit "tbz2"
    ∷ lit "gz"
    ∷ lit "xz"
    ∷ lit "rar"
    ∷ lit "z"
    ∷ []

-- The names of the icons.
pub data Icon : Type 0 where
  folder image headphones videocam folder_zip text_snippet link electrical_services : Icon
  browser_not_supported : Icon

unfoldable pub icon_of_extension : Option Text → Icon
icon_of_extension none = text_snippet
icon_of_extension (some extension) =
    let t = to_lower_case extension in
    if one_of images t
    then image
    else if one_of audios t
    then headphones
    else if one_of videos t
    then videocam
    else if one_of archives t
    then folder_zip
    else text_snippet

unfoldable pub file_icon : Option FileType → Option Text → Icon
file_icon (some directory) extension = folder
file_icon (some file) extension = icon_of_extension extension
file_icon (some symbolic_link) extension = link
file_icon (some socket) extension = electrical_services
file_icon _ extension = browser_not_supported

-- The extensions of `checkTypeSupport`, text, audio, video and images.
abbrev pub supported : List Text
supported =
    lit "txt"
    ∷ lit "pdf"
    ∷ lit "json"
    ∷ lit "mp3"
    ∷ lit "wav"
    ∷ lit "ogg"
    ∷ lit "mp4"
    ∷ lit "webm"
    ∷ lit "apng"
    ∷ lit "avif"
    ∷ lit "jpg"
    ∷ lit "jpeg"
    ∷ lit "pjpeg"
    ∷ lit "jfif"
    ∷ lit "pjp"
    ∷ lit "png"
    ∷ lit "svg"
    ∷ lit "webp"
    ∷ lit "tif"
    ∷ lit "tiff"
    ∷ lit "ico"
    ∷ lit "cur"
    ∷ lit "bmp"
    ∷ lit "gif"
    ∷ []

unfoldable pub check_type_support : Option Text → Bool
check_type_support none = true
check_type_support (some extension) = one_of supported (to_lower_case extension)

abbrev pub is_filled : Text → Bool
is_filled [] = false
is_filled (c ∷ t) = true

unfoldable pub last_of : List Text → Option Text
last_of [] = none
last_of (t ∷ ts) = elim (last_of ts) [ none ↦ some t | some u ↦ some u ]

unfoldable pub file_extension : Text → Option FileType → Option Text
unfolding last_of
file_extension name (some file) = last_of (keep is_filled (split_on b'.' name))
file_extension name _ = none

-- `disabled`, `isFile` and `isDirectory`.
pub data Kind : Type 0 where
  disabled_kind file_kind directory_kind : Kind

unfoldable pub kind_of : Bool → Option FileType → Option FileType → Kind
kind_of true t r = disabled_kind
kind_of false (some file) r = file_kind
kind_of false (some directory) r = directory_kind
kind_of false (some symbolic_link) (some file) = file_kind
kind_of false (some symbolic_link) (some directory) = directory_kind
kind_of false _ r = disabled_kind

-- What a click does while nothing is being selected.
pub data Click : Type 0 where
  no_click : Click
  preview request_preview : Lstat → Click
  cd : Text → Click

unfoldable pub on_click : Text → Bool → Lstat → Click
on_click name uploading s = elim (kind_of uploading s.type s.real_type) [
  | disabled_kind ↦ no_click
  | file_kind ↦ elim s.path [
    | none ↦ no_click
    | some path ↦
        if check_type_support (file_extension name s.type) then preview s else request_preview s
  ]
  | directory_kind ↦ elim s.path [ none ↦ no_click | some path ↦ cd path ]
]

-- A drop of the file `filename` at `path` on an entry: the target of the dialog that opens.
unfoldable pub on_drop : Bool → Lstat → Text → Text → Option Text
on_drop uploading s filename path = elim (kind_of uploading s.type s.real_type) [
  | directory_kind ↦
      if same_path s.path (some path)
      then none
      else if is_filled path && is_filled filename
      then s.path
      else none
  | _ ↦ none
]

-- A drop on the arrow of `DraggingToolbar` (ToolsBar.tsx), by the parent of the directory.
unfoldable pub on_drop_parent : Option Text → Text → Text → Option Text
on_drop_parent none filename path = none
on_drop_parent (some parent) filename path =
    if eq_text parent path
    then none
    else if is_filled path && is_filled filename
    then some parent
    else none
