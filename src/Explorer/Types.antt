-- ===== src/Explorer/Types.antt =====
-- `FileType` and `Lstat` of web/src/common/Type.ts. A field that is `undefined` or `null` is
-- `none`; the code that is modelled treats the two alike.
use web_ssh_tool.Common.{ℕ, Option}
use web_ssh_tool.Common.Text.{Text, lit}

pub data FileType : Type 0 where
  file directory block_device character_device symbolic_link fifo socket : FileType

abbrev pub file_type_text : FileType → Text
file_type_text file = lit "file"
file_type_text directory = lit "directory"
file_type_text block_device = lit "block device"
file_type_text character_device = lit "character device"
file_type_text symbolic_link = lit "symbolic link"
file_type_text fifo = lit "fifo"
file_type_text socket = lit "socket"

pub record Lstat : Type 0 where
  pub type : Option FileType
  pub path : Option Text
  pub basename : Option Text
  pub size : Option ℕ
  pub modified_time : Option Text
  pub real_type : Option FileType
  pub parent : Option Text

-- An entry of `Object.entries(directory.entries)`.
abbrev pub Entry : Type 0
Entry = Text × Lstat
