-- ===== src/Terminal/Menu/Tests.antt =====
-- A choice of the dark theme, a logout and a change of the encoding.
use web_ssh_tool.Common.{◌≡◌, true, false, none, List, [], ◌∷◌}
use web_ssh_tool.Common.Text.{lit}
use web_ssh_tool.Home.{both}
use web_ssh_tool.Appearance.{is_dark}
use web_ssh_tool.Terminal.Menu.{
  Menu, Theme, dark, theme_checked, Click, choose_theme, on_more, choose_decode, logout, run,
}
use web_ssh_tool.Terminal.Menu.Choices.{dark_mode, same_theme, wanted, theme_choice}

abbrev menu : Menu
menu = record {
  open_ = true;
  frame = false;
  about_open = false;
  decode_open = false;
  storage = λ k. none;
  layout = both;
  signed_out = false;
}

abbrev later : List Click
later = on_more ∷ choose_decode (lit "big5") ∷ logout ∷ []

theme_choice_example :
    ((u : Theme)
      → theme_checked (dark_mode (run (choose_theme dark ∷ later) menu)) u ≡ same_theme dark u)
    × (is_dark (dark_mode (run (choose_theme dark ∷ later) menu)) false ≡ wanted dark false)
theme_choice_example = theme_choice dark later menu false (tt, (tt, (tt, tt)))
