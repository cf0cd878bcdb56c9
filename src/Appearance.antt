-- ===== src/Appearance.antt =====
-- web/src/common/providers: the theme (ThemeContext.tsx) and the language (LocaleContext.tsx).
mod Tests
use web_ssh_tool.Common.{Bool, true, false, Option, none, some, if◌then◌else◌}
use web_ssh_tool.Common.Text.{Text, lit, eq_text}
use web_ssh_tool.Settings.{Storage, set_locale}

-- The setting, and the media query of the browser.
unfoldable pub is_dark : Option Text → Bool → Bool
is_dark none prefers_dark = prefers_dark
is_dark (some t) prefers_dark =
    if eq_text t (lit "dark") then true else if eq_text t (lit "light") then false else prefers_dark

pub data Theme : Type 0 where
  default_light default_dark : Theme

pub theme : Bool → Theme
theme true = default_dark
theme false = default_light

-- The texts of one language; there is one.
pub data Language : Type 0 where
  english : Language

-- `buildState`
pub build_state : Text → Language
build_state locale = english

-- The constructor of the service, with the language of the browser.
pub first_language : Option Text → Text → Language
unfolding build_state
first_language none navigator = build_state navigator
first_language (some locale) navigator = build_state locale

-- `toggle`: the setting is kept, and the language is that of the new locale.
pub toggle : Text → Storage → Storage × Language
unfolding build_state
toggle locale s = (set_locale (some locale) s, build_state locale)
