-- ===== src/Explorer/CopyDialog.antt =====
-- The component `CopyToDialog` of
-- web/src/pages/home-page/file-explorer/directory-preview/CopyToDialog.tsx: its states, its
-- controller and its handlers. Its list of targets is Explorer.Targets, what it asks for the objects
-- Explorer.Actions.
pub mod Current
pub mod Destination
mod Tests
use web_ssh_tool.Common.{
  ℕ, Bool, true, false, not, Option, none, some, List, [], ◌∷◌, ◌++◌, if◌then◌else◌,
}
use web_ssh_tool.Common.Text.{Text}
use web_ssh_tool.Explorer.Types.{Lstat, Entry}
use web_ssh_tool.Explorer.Controller.{
  Controller, ControllerState, path_of, Detail, Event, change, closed_event, create, dispose,
}
use web_ssh_tool.Explorer.Controller as Controller
use web_ssh_tool.Explorer.Targets.{shown_directory, row}
use web_ssh_tool.Explorer.Actions.{to_copy, to_move, Done, perform}
use web_ssh_tool.Explorer.Dialogs.{Request, Answer, Outcome, create_directory}

-- The properties `open` and `objects`, the states, the controller, and what it has asked the server.
-- The effect listens to the controller exactly while `open` is set.
pub record Dialog : Type 0 where
  pub open_ : Bool
  pub objects : List Lstat
  pub value : Text
  pub open_info : Bool
  pub open_new : Bool
  pub new_directory : Text
  pub state : Option (Bool × Option ControllerState)
  pub controller : Controller
  pub sent : List Controller.Request

unfoldable pub mount : ℕ → Dialog
mount id =
    let (c, requests, events) = create id in
    record {
      open_ = false;
      objects = [];
      value = [];
      open_info = false;
      open_new = false;
      new_directory = [];
      state = none;
      controller = c;
      sent = requests;
    }

abbrev pub if_text : Option Text → Text → Text
if_text none value = value
if_text (some path) value = path

abbrev pub value_of : Option ControllerState → Text → Text
value_of none value = value
value_of (some s) value = if_text (path_of s) value

-- `listener` of the effect.
unfoldable pub refresh : Dialog → Dialog
refresh d = record d {
  state = some (d.controller.updating, d.controller.state);
  value = value_of d.controller.state d.value;
}

unfoldable pub on_event : Event → Dialog → Dialog
unfolding refresh
on_event change d = if d.open_ then refresh d else d
on_event closed_event d = d

unfoldable pub notify : List Event → Dialog → Dialog
unfolding on_event
notify [] d = d
notify (e ∷ es) d = notify es (on_event e d)

-- What a method of the controller did.
unfoldable pub absorb : Controller.Outcome → Dialog → Dialog
unfolding notify
absorb (c, requests, events) d =
    notify events (record d { controller = c; sent = d.sent ++ requests })

-- Something happens to the controller.
unfoldable pub drive : Controller.Input → Dialog → Dialog
unfolding absorb
drive i d = absorb (Controller.step i d.controller) d

-- The form takes no pointer events while `updating`.
abbrev pub is_updating : Dialog → Bool
is_updating d = elim d.state [ none ↦ false | some s ↦ s.0 ]

-- `directory`
unfoldable pub directory_of : Dialog → Option (Lstat × List Entry)
directory_of d = elim d.state [ none ↦ none | some s ↦ shown_directory s.1 ]

-- What the parent, the user and the server do. `show` and `hide` set the property `open`, the first
-- with new objects; `renew` is another session; `ended` is the end of a copying or moving.
pub data Input : Type 0 where
  show : List Lstat → Input
  hide : Input
  renew : ℕ → Input
  to_parent home open_info open_new close_info close_new enter : Input
  click_row : Entry → Input
  typing typing_new : Text → Input
  ended : Done → Input
  served : Detail → Input
  answered : Bool → Input

-- The effect that runs when `open` is set or the controller is another one.
unfoldable pub effect : Dialog → Dialog
unfolding refresh
effect d = if d.open_ then refresh d else d

-- A new controller, and the cleanup of the effect on the old one.
unfoldable pub renewed : ℕ → Dialog → Dialog
renewed id d =
    let (c, requests, events) = create id in
    record d { controller = c; sent = d.sent ++ ((dispose d.controller).1 ++ requests) }

abbrev pointed : (Dialog → Dialog) → Dialog → Dialog
pointed f d = if is_updating d then d else f d

-- `onClick` of a row.
unfoldable pub on_row : Entry → Dialog → Dialog
unfolding drive
on_row e d = elim (row [] e).target [ none ↦ d | some path ↦ drive (Controller.go (some path)) d ]

unfoldable pub step : Input → Dialog → Dialog
unfolding drive effect on_row
step (show objects) d =
    if d.open_
    then record d { objects = objects }
    else effect (record d { open_ = true; objects = objects })
step hide d = record d { open_ = false }
step (renew id) d = effect (renewed id d)
step to_parent d = pointed (λ d. drive Controller.go_to_parent d) d
step home d = pointed (λ d. drive (Controller.go none) d) d
step open_info d = pointed (λ d. record d { open_info = true }) d
step open_new d = pointed (λ d. record d { open_new = true }) d
step close_info d = record d { open_info = false }
step close_new d = record d { open_new = false }
step enter d = drive (Controller.go (some d.value)) d
step (click_row e) d = pointed (λ d. on_row e d) d
step (typing value) d = record d { value = value }
step (typing_new name) d = record d { new_directory = name }
step (ended done) d = if done.closes then record d { open_ = false } else d
step (served detail) d = drive (Controller.watched detail) d
step (answered is_error) d = drive (Controller.answered is_error) d

unfoldable pub run : List Input → Dialog → Dialog
unfolding step
run [] d = d
run (i ∷ is) d = run is (step i d)

-- `onSubmit`, the button "move" and the button "create".
unfoldable pub submit_copy : (ℕ → Bool) → Dialog → Done
submit_copy is_error d = perform (to_copy d.value) is_error d.objects

unfoldable pub click_move : (ℕ → Bool) → Dialog → Done
click_move is_error d = perform (to_move d.value) is_error d.objects

pub click_create : (Request → Answer) → Dialog → Outcome
click_create answer d =
    create_directory answer (elim (directory_of d) [ none ↦ none | some s ↦ s.0.path ])
      d.new_directory
