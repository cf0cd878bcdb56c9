-- ===== src/Explorer/Frame.antt =====
-- web/src/pages/home-page/file-explorer/directory-preview/PreviewDialog.tsx: the frame that shows a
-- file by its URL, which is asked for whenever the path is another.
pub mod Page
mod Tests
use web_ssh_tool.Common.{
  ℕ, ◌+◌, Bool, true, false, Option, none, some, List, [], ◌∷◌, if◌then◌else◌, ◌==◌,
}
use web_ssh_tool.Common.Keyed
use web_ssh_tool.Common.Text.{Text}
use web_ssh_tool.Explorer.Actions.{same_path}

-- `path` is `state.lstat?.path`. `current` is the run of the effect that has not returned, if it
-- asks for a URL, and `waiting` are the calls of `previewUrl` that are under way, with their paths.
pub record Frame (U : Type 0) : Type 0 where
  pub path : Option Text
  pub url : Option U
  pub loading : Bool
  pub refresh : ℕ
  pub current : Option ℕ
  pub next : ℕ
  pub waiting : List (ℕ × Text)

pub data Event (U : Type 0) : Type 0 where
  show : Option Text → Event U
  url_ready : ℕ → U → Event U
  url_failed : ℕ → Event U
  frame_loaded press_refresh : Event U

-- `!abort`
abbrev pub is_current : Option ℕ → ℕ → Bool
is_current none i = false
is_current (some j) i = j == i

module _ {U : Type 0} where
  -- What the effect returns, if it asks for a URL.
  unfoldable pub cleanup : Frame U → Frame U
  cleanup w = elim w.current [ none ↦ w | some i ↦ record w { current = none; loading = false } ]

  unfoldable pub start : Option Text → Frame U → Frame U
  start none w = record w { path = none; url = none }
  start (some p) w = record w {
    path = some p;
    loading = true;
    current = some w.next;
    next = w.next + 1;
    waiting = Keyed.set w.next p w.waiting;
  }

  -- A URL that comes for a run that has returned is not taken.
  unfoldable pub on_url : Option Text → ℕ → U → Frame U → Frame U
  on_url none i u w = w
  on_url (some p) i u w =
      let over = record w { waiting = Keyed.delete i w.waiting } in
      if is_current w.current i then record over { url = some u } else over

  unfoldable pub step : Event U → Frame U → Frame U
  unfolding cleanup start on_url
  step (show path) w = if same_path w.path path then w else start path (cleanup w)
  step (url_ready i u) w = on_url (Keyed.get i w.waiting) i u w
  step (url_failed i) w = record w { waiting = Keyed.delete i w.waiting }
  step frame_loaded w = record w { loading = false }
  step press_refresh w =
      if w.loading then w else record w { loading = true; refresh = w.refresh + 1 }

  pub create : Frame U
  create = record {
    path = none;
    url = none;
    loading = false;
    refresh = 0;
    current = none;
    next = 0;
    waiting = [];
  }

  -- The URL that `open_in_new` opens, and whether the button is enabled.
  pub open_in_new : Frame U → Option U
  open_in_new w = w.url
