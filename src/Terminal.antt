-- ===== src/Terminal.antt =====
-- web/src/pages/home-page/MultiTerminalView.tsx: the class `MultiTerminalView.Controller`, one shell
-- on the server. The children model the tabs and the quick commands. The encodings of iconv-lite
-- are the parameter `Iconv`.
pub mod Shell
pub mod Tabs
pub mod Commands
pub mod Menu
pub mod Panel
pub mod Screen
mod Tests
use web_ssh_tool.Common.{ℕ, Bool, true, false, List, [], ◌∷◌, ◌++◌, if◌then◌else◌}
use web_ssh_tool.Common.Text.{Text}

-- `iconv.encode` and `iconv.decode`, by the name of the encoding.
pub record Iconv : Type 0 where
  pub encode : Text → Text → List ℕ
  pub decode : List ℕ → Text → Text

pub record Size : Type 0 where
  pub rows : ℕ
  pub cols : ℕ
  pub height : ℕ
  pub width : ℕ

-- The requests under `shell`.
pub data Request : Type 0 where
  shell_open shell_close : ℕ → Request
  shell_data : ℕ → List ℕ → Request
  shell_resize : ℕ → Size → Request

-- What the server tells about a shell.
pub data Detail : Type 0 where
  close_detail other_detail : Detail
  data_detail : List ℕ → Detail

-- `listening` and `armed`: the listener on `auth.shell` and the one for `close`, which goes off
-- once; `written` is what the terminal was given, in order.
pub record Controller : Type 0 where
  pub id : ℕ
  pub size : Size
  pub closed : Bool
  pub listening : Bool
  pub armed : Bool
  pub written : List Text

-- The constructor, and `open` up to its `await`.
unfoldable pub create : ℕ → Controller × List Request
create id = (
  record {
    id = id;
    size = record { rows = 80; cols = 80; height = 240; width = 240 };
    closed = false;
    listening = true;
    armed = true;
    written = [];
  },
  shell_open id ∷ [],
)

-- `onClose.invoke()`, with the listener of the constructor.
invoke_close : Controller → Controller
invoke_close c = if c.armed then record c { listening = false; closed = true; armed = false } else c

unfoldable pub resize : Size → Controller → Controller × List Request
resize size c = (record c { size = size }, shell_resize c.id size ∷ [])

pub close_shell : Controller → Controller × List Request
close_shell c = (c, shell_close c.id ∷ [])

unfoldable pub dispose : Controller → Controller × List Request
unfolding close_shell
dispose c = if c.closed then (c, []) else close_shell c

-- The rest of `open`, after the answer; the argument is `Rest.isError(result)`.
unfoldable pub opened : Bool → Controller → Controller
unfolding invoke_close
opened is_error c = if is_error then invoke_close c else c

module _ (v : Iconv) (encoding : Text) where
  -- The listener of `xterm.onData`; `encoding` is what `textDecoder()` returns.
  unfoldable pub on_data : Text → Controller → Controller × List Request
  on_data text c = (c, shell_data c.id (v.encode text encoding) ∷ [])

  -- `_listener`.
  listener : Detail → Controller → Controller
  unfolding invoke_close
  listener close_detail c = invoke_close c
  listener (data_detail d) c = record c { written = c.written ++ v.decode d encoding ∷ [] }
  listener other_detail c = c

  -- An event of `auth.shell` under the controller's id.
  unfoldable pub on_shell : Detail → Controller → Controller
  unfolding listener
  on_shell d c = if c.listening then listener d c else c

-- All that can happen to a controller.
pub data Input : Type 0 where
  typed : Text → Input
  resized : Size → Input
  ask_close drop : Input
  told : Detail → Input
  answered : Bool → Input

module _ (v : Iconv) (encoding : Text) where
  unfoldable pub step : Input → Controller → Controller × List Request
  unfolding on_data resize close_shell dispose on_shell opened
  step (typed text) c = on_data v encoding text c
  step (resized size) c = resize size c
  step ask_close c = close_shell c
  step drop c = dispose c
  step (told d) c = (on_shell v encoding d c, [])
  step (answered is_error) c = (opened is_error c, [])

  unfoldable pub run : List Input → Controller → Controller × List Request
  run [] c = (c, [])
  run (i ∷ is) c = let (c', first) = step i c in let (c'', rest) = run is c' in (c'', first ++ rest)
