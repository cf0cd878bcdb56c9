-- ===== src/Explorer/Controller.antt =====
-- `FileExplorer.Controller` of web/src/pages/home-page/file-explorer/Common.tsx: one watched place
-- of the server's file system.
pub mod Lifecycle
use web_ssh_tool.Common.{
  ℕ, Bool, true, false, not, Option, none, some, List, [], ◌∷◌, if◌then◌else◌,
}
use web_ssh_tool.Common.Text.{Text}
use web_ssh_tool.Explorer.Types.{Lstat, Entry}

-- `ControllerState`: an error, a file or a directory with its entries.
pub data ControllerState : Type 0 where
  error : Option Text → Text → ControllerState
  file : Lstat → ControllerState
  directory : Lstat → List Entry → ControllerState

abbrev pub path_of : ControllerState → Option Text
path_of (error p e) = p
path_of (file s) = s.path
path_of (directory s es) = s.path

-- What the server tells about a watch. The tests of the listener are its constructors: `close` in
-- the detail, a text under `error`, or a file or directory.
pub data Detail : Type 0 where
  close : Detail
  failed : Option Text → Text → Detail
  found : Lstat → Detail
  listed : Lstat → List Entry → Detail

-- The requests under `watch`.
pub data Request : Type 0 where
  watch_open : ℕ → Request
  watch_cd : ℕ → Option Text → Request
  watch_cd_to_parent : ℕ → Request
  watch_close : ℕ → Request

pub data Event : Type 0 where
  change closed_event : Event

-- `listening` and `armed`: the listener on `auth.watch` and the one for `close`, which goes off
-- once.
pub record Controller : Type 0 where
  pub id : ℕ
  pub updating : Bool
  pub state : Option ControllerState
  pub closed : Bool
  pub listening : Bool
  pub armed : Bool

-- The new state, the requests sent and the events that others see, in order.
abbrev pub Outcome : Type 0
Outcome = Controller × List Request × List Event

-- The constructor, and `open` up to its `await`.
unfoldable pub create : ℕ → Outcome
create id = (
  record { id = id; updating = true; state = none; closed = false; listening = true; armed = true },
  watch_open id ∷ [],
  [],
)

unfoldable pub cd : Option Text → Controller → Outcome
cd path c = (record c { updating = true }, watch_cd c.id path ∷ [], change ∷ [])

unfoldable pub cd_to_parent : Controller → Outcome
cd_to_parent c = (record c { updating = true }, watch_cd_to_parent c.id ∷ [], change ∷ [])

unfoldable pub close_watch : Controller → Outcome
close_watch c = (c, watch_close c.id ∷ [], [])

unfoldable pub dispose : Controller → Outcome
unfolding close_watch
dispose c = if c.closed then (c, [], []) else close_watch c

-- `this.dispatchEvent(new Event('close'))` with the listener that `open` adds.
unfoldable pub dispatch_close : Controller → Outcome
dispatch_close c = (
  if c.armed then record c { listening = false; closed = true; armed = false } else c,
  [],
  closed_event ∷ [],
)

abbrev pub new_state : Detail → Option ControllerState
new_state close = none
new_state (failed p e) = some (error p e)
new_state (found s) = some (file s)
new_state (listed s es) = some (directory s es)

-- `_listener`.
unfoldable pub listener : Detail → Controller → Outcome
unfolding dispatch_close
listener close c = dispatch_close c
listener d c = (record c { state = new_state d; updating = false }, [], change ∷ [])

-- An event of `auth.watch` under the controller's id.
unfoldable pub on_watch : Detail → Controller → Outcome
unfolding listener
on_watch d c = if c.listening then listener d c else (c, [], [])

-- The rest of `open`, after the answer; the argument is `Rest.isError(result)`.
unfoldable pub opened : Bool → Controller → Outcome
unfolding dispatch_close
opened is_error c = if is_error then dispatch_close c else (c, [], [])

-- All that can happen to a controller.
pub data Input : Type 0 where
  go : Option Text → Input
  go_to_parent ask_close drop : Input
  watched : Detail → Input
  answered : Bool → Input

unfoldable pub step : Input → Controller → Outcome
unfolding cd cd_to_parent close_watch dispose on_watch opened
step (go p) c = cd p c
step go_to_parent c = cd_to_parent c
step ask_close c = close_watch c
step drop c = dispose c
step (watched d) c = on_watch d c
step (answered is_error) c = opened is_error c

unfoldable pub run : List Input → Controller → Controller
run [] c = c
run (i ∷ is) c = run is (step i c).0
