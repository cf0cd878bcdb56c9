-- ===== src/Appearance/Tests.antt =====
-- Settings of the appearance (web/src/common/providers).
use web_ssh_tool.Common.{◌≡◌, refl, true, false, none, some}
use web_ssh_tool.Common.Text.{lit, eq_text}
use web_ssh_tool.Settings.{set_locale, string_key_callback}
use web_ssh_tool.Appearance.{is_dark, toggle}

chosen_light : is_dark (some (lit "light")) true ≡ false
unfolding is_dark eq_text
chosen_light = refl

kept_locale : (toggle (lit "ja") (λ k. none)).0 (lit "locale") ≡ some (lit "ja")
unfolding toggle set_locale string_key_callback eq_text
kept_locale = refl
