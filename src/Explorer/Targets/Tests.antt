-- ===== src/Explorer/Targets/Tests.antt =====
-- Runs of the list of targets.
use web_ssh_tool.Common.{none, some, List, [], ◌∷◌, String}
use web_ssh_tool.Common.Text.{lit}
use web_ssh_tool.Explorer.Types.{FileType, file, directory, Lstat, Entry}

abbrev stats : FileType → String → Lstat
stats t name = record {
  type = some t;
  path = some (lit name);
  basename = some (lit name);
  size = none;
  modified_time = none;
  real_type = none;
  parent = none;
}

abbrev entries : List Entry
entries =
    (lit ".git", stats directory ".git")
    ∷ (lit "a.ts", stats file "a.ts")
    ∷ (lit "src", stats directory "src")
    ∷ []
