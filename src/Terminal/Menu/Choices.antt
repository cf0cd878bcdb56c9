-- ===== src/Terminal/Menu/Choices.antt =====
-- What a choice in the menu of MultiTerminalView.tsx comes to: the setting, the radio buttons, and
-- the theme that ThemeContext.tsx makes of it.
use web_ssh_tool.Common.{
  ◌≡◌, refl, ◌∙◌, All, Bool-cases, inl, inr, Bool, true, false, Option, none, some, List, [], ◌∷◌,
}
use web_ssh_tool.Common.Text.{Text, lit, eq_text}
use web_ssh_tool.Settings.{
  Storage, context, set_dark_mode, string_key_callback, set_text_decode, set_layout,
  set_remember_password, bool_key_callback,
}
use web_ssh_tool.Home.{layout_text}
use web_ssh_tool.Appearance.{is_dark}
use web_ssh_tool.Terminal.Menu.{
  other_layout, Menu, Theme, auto, light, dark, theme_setting, theme_checked, choose_theme, Click,
  handle, step, run, toggle_layout, open_decode, ssh_tool, open_about, logout, choose_utf_8,
  choose_decode, on_more, next_frame, elsewhere, close_about, close_decode,
}

-- The setting of the theme in the storage.
abbrev pub dark_mode : Menu → Option Text
dark_mode m = (context m.storage).dark_mode

abbrev pub same_theme : Theme → Theme → Bool
same_theme auto auto = true
same_theme light light = true
same_theme dark dark = true
same_theme _ _ = false

chosen : (t : Theme) (m : Menu) → dark_mode (step (choose_theme t) m) ≡ theme_setting t
unfolding step handle context set_dark_mode string_key_callback eq_text
chosen auto m = refl
chosen light m = refl
chosen dark m = refl

-- The click is not on a theme.
abbrev pub Keeps : Click → Type 0
Keeps (choose_theme t) = ⊥
Keeps _ = Unit

other_key :
    (key k : Text) (v : Option Text) (s : Storage)
    → eq_text k key ≡ false
    → string_key_callback key v s k ≡ s k
unfolding string_key_callback
other_key key k none s e = rw e
other_key key k (some []) s e = rw e
other_key key k (some (c ∷ v)) s e = rw e

spared : (c : Click) (m : Menu) → Keeps c → dark_mode (step c m) ≡ dark_mode m
unfolding step handle context set_layout set_text_decode set_remember_password bool_key_callback
    eq_text
spared (choose_theme t) m k = absurd k
spared toggle_layout m k =
    other_key (lit "layout") (lit "dark-mode") (layout_text (other_layout m.layout)) m.storage refl
spared open_decode m k = refl
spared ssh_tool m k = refl
spared open_about m k = refl
spared logout m k = refl
spared choose_utf_8 m k = other_key (lit "text-decode") (lit "dark-mode") none m.storage refl
spared (choose_decode v) m k =
    other_key (lit "text-decode") (lit "dark-mode") (some v) m.storage refl
spared on_more m k = refl
spared next_frame m k = elim (Bool-cases m.frame) [ inl e ↦ rw e | inr e ↦ rw e ]
spared elsewhere m k = refl
spared close_about m k = refl
spared close_decode m k = refl

run-dark_mode : (cs : List Click) (m : Menu) → All Keeps cs → dark_mode (run cs m) ≡ dark_mode m
unfolding run
run-dark_mode [] m k = refl
run-dark_mode (c ∷ cs) m k = run-dark_mode cs (step c m) k.1 ∙ spared c m k.0

chosen_stands :
    (t : Theme) (cs : List Click) (m : Menu)
    → All Keeps cs
    → dark_mode (run (choose_theme t ∷ cs) m) ≡ theme_setting t
unfolding run
chosen_stands t cs m k = run-dark_mode cs (step (choose_theme t) m) k ∙ chosen t m

-- Whether the theme is dark where the browser prefers the given one.
abbrev pub wanted : Theme → Bool → Bool
wanted auto prefers_dark = prefers_dark
wanted light prefers_dark = false
wanted dark prefers_dark = true

auto_radio : (u : Theme) → theme_checked none u ≡ same_theme auto u
unfolding theme_checked
auto_radio auto = refl
auto_radio light = refl
auto_radio dark = refl

light_radio : (u : Theme) → theme_checked (some (lit "light")) u ≡ same_theme light u
unfolding theme_checked eq_text
light_radio auto = refl
light_radio light = refl
light_radio dark = refl

dark_radio : (u : Theme) → theme_checked (some (lit "dark")) u ≡ same_theme dark u
unfolding theme_checked eq_text
dark_radio auto = refl
dark_radio light = refl
dark_radio dark = refl

agrees :
    (t : Theme) (prefers_dark : Bool)
    → ((u : Theme) → theme_checked (theme_setting t) u ≡ same_theme t u)
      × (is_dark (theme_setting t) prefers_dark ≡ wanted t prefers_dark)
unfolding theme_checked is_dark eq_text
agrees auto p = (λ u. auto_radio u, refl)
agrees light p = (λ u. light_radio u, refl)
agrees dark p = (λ u. dark_radio u, refl)

-- A theme that is chosen in the menu stands until another one is chosen: after any other clicks its
-- radio button is the one that is checked, and the theme of the page is dark if dark was chosen, not
-- dark if light was chosen, and as the browser prefers if neither was.
pub theme_choice :
    (t : Theme) (cs : List Click) (m : Menu) (prefers_dark : Bool)
    → All Keeps cs
    → ((u : Theme) → theme_checked (dark_mode (run (choose_theme t ∷ cs) m)) u ≡ same_theme t u)
      × (is_dark (dark_mode (run (choose_theme t ∷ cs) m)) prefers_dark ≡ wanted t prefers_dark)
theme_choice t cs m p k = rw (chosen_stands t cs m k) (agrees t p)
