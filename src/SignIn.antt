-- ===== src/SignIn.antt =====
-- `Content` of web/src/pages/SignInPage.tsx: the form that signs in, with the settings that remember
-- its fields.
pub mod Secrets
pub mod Visibility
pub mod Server
mod Tests
use web_ssh_tool.Common.{
  Bool, true, false, not, ◌&&◌, Option, none, some, List, [], ◌∷◌, ◌++◌, if◌then◌else◌,
}
use web_ssh_tool.Common.Text.{Text, lit}
use web_ssh_tool.Settings.{
  Storage, Context, context, is_some, set_ssh_user_name, set_ssh_password, set_remember_password,
}

-- What `server.signIn` comes to: an error, a success, or a rejection, for an answer that could not
-- be decoded.
pub data Answer : Type 0 where
  refused : Text → Answer
  accepted undecodable : Answer

-- The component's state, the storage behind its settings, the calls of `signIn` with their name and
-- password, and the messages shown.
pub record Form : Type 0 where
  pub storage : Storage
  pub auth : Bool
  pub loading : Bool
  pub username : Text
  pub password : Text
  pub sent : List (Text × Text)
  pub messages : List Text

abbrev pub or_empty : Option Text → Text
or_empty none = []
or_empty (some t) = t

-- The constructor.
unfoldable pub create : Storage → Form
create s =
    let settings = context s in
    record {
      storage = s;
      auth = false;
      loading = false;
      username = or_empty settings.ssh_user_name;
      password = if settings.remember_password then or_empty settings.ssh_password else [];
      sent = [];
      messages = [];
    }

-- `_submit`, up to its first `await`.
unfoldable pub submit : Form → Form
submit f =
    if f.auth
    then f
    else record f { loading = true; sent = f.sent ++ (f.username, f.password) ∷ [] }

-- The rest of `_submit`, by the fields that it read before.
unfoldable pub answered : Text → Text → Answer → Form → Form
answered username password (refused e) f = record f { loading = false; messages = e ∷ f.messages }
answered username password undecodable f = f
answered username password accepted f =
    let named = set_ssh_user_name (some username) f.storage in
    record f {
      storage =
          if (context named).remember_password
          then set_ssh_password (some password) named
          else named;
      auth = true;
      loading = false;
    }

-- `componentDidMount`; which field gets the focus is left out.
unfoldable pub mount : Form → Form
unfolding submit
mount f =
    let settings = context f.storage in
    let tried =
      if settings.remember_password
        && (is_some settings.ssh_user_name && is_some settings.ssh_password)
      then submit f
      else f in
    if settings.remember_password
    then tried
    else record tried { storage = set_ssh_password none tried.storage }

-- The checkbox.
unfoldable pub toggle_remember : Form → Form
toggle_remember f =
    let remember = not (context f.storage).remember_password in
    let s = set_remember_password remember f.storage in
    record f { storage = if remember then s else set_ssh_password none s }

unfoldable pub type_username : Text → Form → Form
type_username t f = record f { username = t }

unfoldable pub type_password : Text → Form → Form
type_password t f = record f { password = t }

pub data Input : Type 0 where
  submitted toggled : Input
  answer : Text → Text → Answer → Input
  typed_username typed_password : Text → Input

unfoldable pub step : Input → Form → Form
unfolding submit answered toggle_remember
step submitted f = submit f
step toggled f = toggle_remember f
step (answer username password a) f = answered username password a f
step (typed_username t) f = type_username t f
step (typed_password t) f = type_password t f

unfoldable pub run : List Input → Form → Form
run [] f = f
run (i ∷ is) f = run is (step i f)
