-- ===== src/Explorer/View.antt =====
-- The component `FileExplorer` of web/src/pages/home-page/file-explorer/Common.tsx: what it shows
-- of its controller, and `_reconnect` of web/src/pages/home-page/MultiFileExplorer.tsx.
pub mod Mirror
pub mod Reconnect
use web_ssh_tool.Common.{
  ℕ, Bool, true, false, Option, none, some, List, [], ◌∷◌, ◌++◌, ltb, length, if◌then◌else◌,
}
use web_ssh_tool.Common.Text.{Text}
use web_ssh_tool.Explorer.Types.{Lstat, Entry}
use web_ssh_tool.Explorer.Controller
use web_ssh_tool.Explorer.Controller.{
  Controller, ControllerState, error, file, directory, path_of, Request, Event, change,
  closed_event, Input, create, step,
}

pub data Transform : Type 0 where
  from_right_to_left from_left_to_right : Transform

-- The component's states: `closed`, `loading` and `state`, and `transitionStyle`.
pub record View : Type 0 where
  pub controller : Controller
  pub closed : Bool
  pub loading : Bool
  pub state : Option ControllerState
  pub transform : Transform
  pub path : Option Text

abbrev pub path_of_state : Option ControllerState → Option Text
path_of_state none = none
path_of_state (some s) = path_of s

-- The first render.
unfoldable pub mount : Controller → View
mount c = record {
  controller = c;
  closed = c.closed;
  loading = c.updating;
  state = c.state;
  transform = from_right_to_left;
  path = path_of_state c.state;
}

-- The argument of `setTransitionStyle`.
unfoldable pub transition : Option Text → Option Text → Transform
transition none current = from_right_to_left
transition (some path) none = from_left_to_right
transition (some path) (some current) =
    if ltb (length current) (length path) then from_right_to_left else from_left_to_right

-- The listener of `change`.
unfoldable pub on_change : View → View
unfolding transition
on_change v =
    let path = path_of_state v.controller.state in
    record v {
      transform = transition path v.path;
      path = path;
      loading = v.controller.updating;
      state = v.controller.state;
    }

-- The listener of `close`.
unfoldable pub on_close : View → View
on_close v = record v { closed = v.controller.closed }

unfoldable pub on_event : Event → View → View
unfolding on_change on_close
on_event change v = on_change v
on_event closed_event v = on_close v

-- What `Content` renders; the controls take no pointer events while `loading`.
pub data Shown : Type 0 where
  lost_connection loading_page : Shown
  error_page : Option Text → Text → Shown
  directory_page : Lstat → List Entry → Shown
  file_page : Lstat → Shown

unfoldable pub content : View → Shown
content v = if v.closed then lost_connection else elim v.state [
  | none ↦ loading_page
  | some (error p e) ↦ error_page p e
  | some (directory s es) ↦ directory_page s es
  | some (file s) ↦ file_page s
]

abbrev pub takes_pointer_events : View → Bool
takes_pointer_events v = if v.loading then false else true

-- `keyId`: the number 0, or a text that begins with the kind of page and goes on with its path.
unfoldable pub key_id : View → Option (ℕ × Option Text)
key_id v = if v.closed then none else elim v.state [
  | none ↦ some (0, none)
  | some (error p e) ↦ some (1, p)
  | some (directory s es) ↦ some (2, s.path)
  | some (file s) ↦ some (3, s.path)
]

-- The events reach the listeners one after another.
unfoldable pub notify : List Event → View → View
unfolding on_event
notify [] v = v
notify (e ∷ es) v = notify es (on_event e v)

-- Something happens to the controller that is shown.
unfoldable pub drive : Input → View → View
unfolding notify
drive i v =
    let (c, requests, events) = step i v.controller in notify events (record v { controller = c })

-- `_reconnect`: the old controller is disposed of, and the component is rendered with a new one.
-- Its states are those that it had, for `React.useState` reads its argument at the first render.
unfoldable pub reconnect : ℕ → View → View × List Request
reconnect id v =
    (record v { controller = (create id).0 }, (Controller.dispose v.controller).1 ++ (create id).1)
