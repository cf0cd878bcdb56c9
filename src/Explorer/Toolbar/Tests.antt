-- ===== src/Explorer/Toolbar/Tests.antt =====
-- The bar of ToolsBar.tsx on a small directory.
use web_ssh_tool.Common.{◌≡◌, refl, true, false, none, some, List, [], ◌∷◌}
use web_ssh_tool.Common.Text.{lit, eq_text}
use web_ssh_tool.Explorer.Types.{file, directory, Lstat, Entry}
use web_ssh_tool.Explorer.Toolbar.{
  ObjectsDialog, More, on_more, next_frame, on_item, toggle_hidden, drop_copy, paths, step,
}
use web_ssh_tool.Explorer.Order.{alphabetically}
use web_ssh_tool.Home.{both}

abbrev songs : Lstat
songs = record {
  type = some directory;
  path = some (lit "/home/songs");
  basename = some (lit "songs");
  size = none;
  modified_time = none;
  real_type = none;
  parent = some (lit "/home");
}

abbrev nameless : Lstat
nameless = record songs { type = some file; path = none }

abbrev entries : List Entry
entries = (lit "x", nameless) ∷ (lit "songs", songs) ∷ []

abbrev dialog : ObjectsDialog
dialog = record { open_ = true; objects = songs ∷ [] }

no_drop : drop_copy (lit "/home/x") entries ≡ none
unfolding drop_copy eq_text
no_drop = refl

selected_paths : paths (nameless ∷ songs ∷ []) ≡ lit "/home/songs" ∷ []
unfolding paths
selected_paths = refl

abbrev menu : More
menu = record {
  open_ = false;
  frame = false;
  file = record { open_ = false; path = [] };
  directory = record { open_ = false; path = [] };
  config = record { show_all = false; sort = alphabetically; upload_compress = false };
  layout = both;
  information = none;
}

-- The menu opens at the next frame and closes with the click on an item.
toggled :
    step none none songs
      (on_item toggle_hidden)
      (step none none songs next_frame (step none none songs on_more menu))
    ≡ record menu { config = record menu.config { show_all = true } }
unfolding step
toggled = refl
