-- ===== src/Settings/Storing.antt =====
-- The keys of the settings (SettingsContent.tsx).
use web_ssh_tool.Common.{◌≡◌, refl, Bool, true, false, Option, none, some, [], ◌∷◌}
use web_ssh_tool.Common.Text.{Text, eq_text}
use web_ssh_tool.Settings.{
  Storage, bool_key_callback, string_key_callback, Context, context, set_locale,
  set_remember_password, set_ssh_user_name, set_ssh_password, set_last_path, set_dark_mode,
  set_text_decode, set_quick_commands, set_layout,
}

-- What a text setting holds after it was set: an empty text is not kept.
abbrev pub kept : Option Text → Option Text
kept none = none
kept (some []) = none
kept (some (c ∷ t)) = some (c ∷ t)

-- The setters, with their values.
pub data Change : Type 0 where
  locale_change user_change password_change path_change dark_change decode_change commands_change
        layout_change :
      Option Text → Change
  remember_change : Bool → Change

abbrev pub apply : Change → Storage → Storage
apply (locale_change v) s = set_locale v s
apply (remember_change b) s = set_remember_password b s
apply (user_change v) s = set_ssh_user_name v s
apply (password_change v) s = set_ssh_password v s
apply (path_change v) s = set_last_path v s
apply (dark_change v) s = set_dark_mode v s
apply (decode_change v) s = set_text_decode v s
apply (commands_change v) s = set_quick_commands v s
apply (layout_change v) s = set_layout v s

-- The settings with one of them replaced.
abbrev pub replaced : Change → Context → Context
replaced (locale_change v) c = record c { locale = kept v }
replaced (remember_change b) c = record c { remember_password = b }
replaced (user_change v) c = record c { ssh_user_name = kept v }
replaced (password_change v) c = record c { ssh_password = kept v }
replaced (path_change v) c = record c { last_path = kept v }
replaced (dark_change v) c = record c { dark_mode = kept v }
replaced (decode_change v) c = record c { text_decode = kept v }
replaced (commands_change v) c = record c { quick_commands = kept v }
replaced (layout_change v) c = record c { layout = kept v }

-- Setting a setting changes what is read of it, to the value or to nothing for an empty text, and
-- changes what is read of no other setting: their keys are all different.
pub context-apply : (ch : Change) (s : Storage) → context (apply ch s) ≡ replaced ch (context s)
unfolding context set_locale set_remember_password set_ssh_user_name set_ssh_password set_last_path
    set_dark_mode set_text_decode set_quick_commands set_layout string_key_callback
    bool_key_callback eq_text
context-apply (locale_change none) s = refl
context-apply (locale_change (some [])) s = refl
context-apply (locale_change (some (c ∷ t))) s = refl
context-apply (remember_change true) s = refl
context-apply (remember_change false) s = refl
context-apply (user_change none) s = refl
context-apply (user_change (some [])) s = refl
context-apply (user_change (some (c ∷ t))) s = refl
context-apply (password_change none) s = refl
context-apply (password_change (some [])) s = refl
context-apply (password_change (some (c ∷ t))) s = refl
context-apply (path_change none) s = refl
context-apply (path_change (some [])) s = refl
context-apply (path_change (some (c ∷ t))) s = refl
context-apply (dark_change none) s = refl
context-apply (dark_change (some [])) s = refl
context-apply (dark_change (some (c ∷ t))) s = refl
context-apply (decode_change none) s = refl
context-apply (decode_change (some [])) s = refl
context-apply (decode_change (some (c ∷ t))) s = refl
context-apply (commands_change none) s = refl
context-apply (commands_change (some [])) s = refl
context-apply (commands_change (some (c ∷ t))) s = refl
context-apply (layout_change none) s = refl
context-apply (layout_change (some [])) s = refl
context-apply (layout_change (some (c ∷ t))) s = refl
