-- ===== src/Settings.antt =====
-- The class `Settings.Service` of web/src/common/providers/SettingsContent.tsx: settings kept in the
-- browser's local storage.
pub mod Storing
mod Tests
use web_ssh_tool.Common.{Bool, true, false, Option, none, some, List, [], ◌∷◌, if◌then◌else◌}
use web_ssh_tool.Common.Text.{Text, lit, eq_text}

-- `localStorage.getItem`; `null` is `none`.
abbrev pub Storage : Type 0
Storage = Text → Option Text

abbrev pub set_item : Text → Text → Storage → Storage
set_item key value s k = if eq_text k key then some value else s k

abbrev pub remove_item : Text → Storage → Storage
remove_item key s k = if eq_text k key then none else s k

unfoldable pub bool_key_callback : Text → Bool → Storage → Storage
bool_key_callback key true s = set_item key [] s
bool_key_callback key false s = remove_item key s

-- An empty text is falsy.
unfoldable pub string_key_callback : Text → Option Text → Storage → Storage
string_key_callback key none s = remove_item key s
string_key_callback key (some []) s = remove_item key s
string_key_callback key (some (c ∷ value)) s = set_item key (c ∷ value) s

abbrev pub is_some : Option Text → Bool
is_some none = false
is_some (some t) = true

-- The getters and setters of the context, by the keys that they use.
pub record Context : Type 0 where
  pub locale : Option Text
  pub remember_password : Bool
  pub ssh_user_name : Option Text
  pub ssh_password : Option Text
  pub last_path : Option Text
  pub dark_mode : Option Text
  pub text_decode : Option Text
  pub quick_commands : Option Text
  pub layout : Option Text

unfoldable pub context : Storage → Context
context s = record {
  locale = s (lit "locale");
  remember_password = is_some (s (lit "remember-password"));
  ssh_user_name = s (lit "ssh-user-name");
  ssh_password = s (lit "ssh-password");
  last_path = s (lit "last-path");
  dark_mode = s (lit "dark-mode");
  text_decode = s (lit "text-decode");
  quick_commands = s (lit "quick-commands");
  layout = s (lit "layout");
}

unfoldable pub set_locale : Option Text → Storage → Storage
set_locale v s = string_key_callback (lit "locale") v s

unfoldable pub set_remember_password : Bool → Storage → Storage
set_remember_password b s = bool_key_callback (lit "remember-password") b s

unfoldable pub set_ssh_user_name : Option Text → Storage → Storage
set_ssh_user_name v s = string_key_callback (lit "ssh-user-name") v s

unfoldable pub set_ssh_password : Option Text → Storage → Storage
set_ssh_password v s = string_key_callback (lit "ssh-password") v s

unfoldable pub set_last_path : Option Text → Storage → Storage
set_last_path v s = string_key_callback (lit "last-path") v s

unfoldable pub set_dark_mode : Option Text → Storage → Storage
set_dark_mode v s = string_key_callback (lit "dark-mode") v s

unfoldable pub set_text_decode : Option Text → Storage → Storage
set_text_decode v s = string_key_callback (lit "text-decode") v s

unfoldable pub set_quick_commands : Option Text → Storage → Storage
set_quick_commands v s = string_key_callback (lit "quick-commands") v s

unfoldable pub set_layout : Option Text → Storage → Storage
set_layout v s = string_key_callback (lit "layout") v s
