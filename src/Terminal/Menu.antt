-- ===== src/Terminal/Menu.antt =====
-- `MoreButton` of web/src/pages/home-page/MultiTerminalView.tsx: the menu with the theme, the layout,
-- the encoding of the terminal and the end of the session.
pub mod Choices
mod Tests
use web_ssh_tool.Common.{
  Bool, true, false, not, ◌&&◌, ◌||◌, Option, none, some, List, [], ◌∷◌, if◌then◌else◌,
}
use web_ssh_tool.Common.Text.{Text, lit, eq_text}
use web_ssh_tool.Settings.{
  Storage, context, set_dark_mode, set_text_decode, set_remember_password, set_layout,
}
use web_ssh_tool.Home.{Layout, both, terminal, file_explorer, layout_text}

-- The states of the component, with the storage behind the settings, the layout of the page, and
-- whether `auth.signOut` was called.
pub record Menu : Type 0 where
  pub open_ : Bool
  pub frame : Bool
  pub about_open : Bool
  pub decode_open : Bool
  pub storage : Storage
  pub layout : Layout
  pub signed_out : Bool

pub data Theme : Type 0 where
  auto light dark : Theme

abbrev pub theme_setting : Theme → Option Text
theme_setting auto = none
theme_setting light = some (lit "light")
theme_setting dark = some (lit "dark")

abbrev is_text : Option Text → Text → Bool
is_text none t = false
is_text (some s) t = eq_text s t

-- Which radio buttons are checked.
unfoldable pub theme_checked : Option Text → Theme → Bool
theme_checked d auto = not (is_text d (lit "dark")) && not (is_text d (lit "light"))
theme_checked d light = is_text d (lit "light")
theme_checked d dark = is_text d (lit "dark")

abbrev is_null : Option Text → Bool
is_null none = true
is_null (some t) = false

-- `utf-8` and one of the other values of `DECODE_OPTION`.
unfoldable pub utf_8_checked : Option Text → Bool
utf_8_checked d = is_text d (lit "utf-8") || is_null d

unfoldable pub decode_checked : Option Text → Text → Bool
decode_checked d v = is_text d v

-- The items of the menu, those of the dialog with the encodings, and the rest of the clicks.
-- `System SSH Tool` opens a URL and changes nothing here.
pub data Click : Type 0 where
  choose_theme : Theme → Click
  toggle_layout open_decode ssh_tool open_about logout : Click
  choose_utf_8 : Click
  choose_decode : Text → Click
  on_more next_frame elsewhere close_about close_decode : Click

-- "Hide File Explorer" or "Show File Explorer".
abbrev pub other_layout : Layout → Layout
other_layout both = terminal
other_layout terminal = both
other_layout file_explorer = both

-- The handlers.
unfoldable pub handle : Click → Menu → Menu
handle (choose_theme t) m = record m { storage = set_dark_mode (theme_setting t) m.storage }
handle toggle_layout m =
    let l = other_layout m.layout in
    record m { layout = l; storage = set_layout (layout_text l) m.storage }
handle open_decode m = record m { decode_open = true }
handle ssh_tool m = m
handle open_about m = record m { about_open = true }
handle logout m = record m { storage = set_remember_password false m.storage; signed_out = true }
handle choose_utf_8 m = record m { storage = set_text_decode none m.storage }
handle (choose_decode v) m = record m { storage = set_text_decode (some v) m.storage }
handle on_more m = record m { frame = true }
handle next_frame m = if m.frame then record m { open_ = true; frame = false } else m
handle elsewhere m = m
handle close_about m = record m { about_open = false }
handle close_decode m = record m { decode_open = false }

abbrev is_click : Click → Bool
is_click next_frame = false
is_click _ = true

-- The listener of the window closes the menu at each click, after the handler.
unfoldable pub step : Click → Menu → Menu
unfolding handle
step c m = if is_click c then record (handle c m) { open_ = false } else handle c m

unfoldable pub run : List Click → Menu → Menu
unfolding step
run [] m = m
run (c ∷ cs) m = run cs (step c m)
