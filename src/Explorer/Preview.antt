-- ===== src/Explorer/Preview.antt =====
-- `PreviewWindow` of web/src/pages/home-page/file-explorer/directory-preview/RequestPreviewDialog.tsx:
-- the text of a file, with a request for each run of the effect, and the dialog that opens it.
pub mod Sound
pub mod Fresh
pub mod Loads
mod Tests
use web_ssh_tool.Common.{
  ℕ, ◌+◌, Bool, true, false, Option, none, some, List, [], ◌∷◌, ◌++◌, ◌==◌, if◌then◌else◌,
}
use web_ssh_tool.Common.Keyed
use web_ssh_tool.Common.Text.{Text, lit}
use web_ssh_tool.Explorer.Types.{Lstat}
use web_ssh_tool.Explorer.Listing.{RequestPreview}

-- `loading`: `false`, `true`, or the quotient of two numbers.
pub data Loading : Type 0 where
  idle : Loading
  busy : Loading
  part : ℕ → ℕ → Loading

-- What a run of the effect with its path waits for: the URL, or the answer to the request that was
-- sent. It is over when the request was answered, failed or was aborted.
pub data Run : Type 0 where
  waiting : Text → Run
  sent : Text → Run
  over : Run

-- `path` is `lstat?.path` where that is a string; `current` is the last run of the effect, if it
-- made a request; `B` are the bytes of an answer.
pub record Window (B : Type 0) : Type 0 where
  pub path : Option Text
  pub refresh : ℕ
  pub decode : Text
  pub loading : Loading
  pub body : Option B
  pub current : Option ℕ
  pub next : ℕ
  pub runs : List (ℕ × Run)

pub data Event (B : Type 0) : Type 0 where
  show : Option Text → Event B
  press_refresh : Event B
  url_ready : ℕ → Event B
  url_failed : ℕ → Event B
  progress : ℕ → ℕ → ℕ → Bool → Event B
  load : ℕ → B → Event B
  error : ℕ → Event B
  choose_decode : Text → Event B

-- `xhr.abort()`: a request that was sent has neither of the events `load` and `error` after it.
abbrev pub abort_run : Run → Run
abort_run (waiting p) = waiting p
abort_run (sent p) = over
abort_run over = over

abbrev pub abort_at : Option ℕ → List (ℕ × Run) → List (ℕ × Run)
abort_at none runs = runs
abort_at (some i) runs = elim (Keyed.get i runs) [
  | none ↦ runs
  | some r ↦ Keyed.set i (abort_run r) runs
]

-- `!abort`
abbrev pub is_current : Option ℕ → ℕ → Bool
is_current none i = false
is_current (some j) i = j == i

module _ {B : Type 0} where
  -- What the effect returns.
  unfoldable pub cleanup : Window B → Window B
  cleanup w = record w { current = none; runs = abort_at w.current w.runs }

  unfoldable pub start : Option Text → Window B → Window B
  start none w = record w { body = none; loading = idle }
  start (some p) w = record w {
    loading = busy;
    current = some w.next;
    next = w.next + 1;
    runs = Keyed.set w.next (waiting p) w.runs;
  }

  unfoldable pub rerun : Window B → Window B
  unfolding start cleanup
  rerun w = start w.path (cleanup w)

  -- The button is disabled while something loads.
  unfoldable pub on_refresh : Loading → Window B → Window B
  unfolding rerun
  on_refresh idle w = rerun (record w { refresh = w.refresh + 1 })
  on_refresh busy w = w
  on_refresh (part loaded total) w = w

  -- `iconv.encodingExists` is the first argument.
  unfoldable pub on_choose : (Text → Bool) → Text → Window B → Window B
  on_choose exists name w = if exists name then record w { decode = name } else w

  unfoldable pub on_error : ℕ → Window B → Window B
  on_error i w = record w { body = none; loading = idle; runs = Keyed.set i over w.runs }

  unfoldable pub on_progress : ℕ → ℕ → Bool → Window B → Window B
  on_progress loaded total computable w =
      if total == 0 then w else if computable then record w { loading = part loaded total } else w

  -- An event with what its run waits for; an event that the run does not wait for does not occur.
  unfoldable pub step_at : Option Run → (Text → Bool) → Event B → Window B → Window B
  unfolding rerun on_refresh on_choose on_error on_progress
  step_at r exists (show path) w = rerun (record w { path = path })
  step_at r exists press_refresh w = on_refresh w.loading w
  step_at (some (waiting p)) exists (url_ready i) w = record w {
    runs = Keyed.set i (if is_current w.current i then sent p else over) w.runs;
  }
  step_at (some (waiting p)) exists (url_failed i) w = on_error i w
  step_at (some (sent p)) exists (progress i loaded total computable) w =
      on_progress loaded total computable w
  step_at (some (sent p)) exists (load i b) w = record w {
    body = some b;
    loading = idle;
    runs = Keyed.set i over w.runs;
  }
  step_at (some (sent p)) exists (error i) w = on_error i w
  step_at r exists (choose_decode name) w = on_choose exists name w
  step_at r exists e w = w

  abbrev pub run_of : Event B → List (ℕ × Run) → Option Run
  run_of (url_ready i) runs = Keyed.get i runs
  run_of (url_failed i) runs = Keyed.get i runs
  run_of (progress i loaded total computable) runs = Keyed.get i runs
  run_of (load i b) runs = Keyed.get i runs
  run_of (error i) runs = Keyed.get i runs
  run_of e runs = none

  unfoldable pub step : (Text → Bool) → Event B → Window B → Window B
  unfolding step_at
  step exists e w = step_at (run_of e w.runs) exists e w

  unfoldable pub run : (Text → Bool) → List (Event B) → Window B → Window B
  unfolding step
  run exists [] w = w
  run exists (e ∷ es) w = run exists es (step exists e w)

  -- The window as it is mounted: the effect runs for the first time.
  unfoldable pub mount : Option Text → Window B
  unfolding start
  mount path = start path (record {
    path = path;
    refresh = 0;
    decode = lit "utf-8";
    loading = idle;
    body = none;
    current = none;
    next = 0;
    runs = [];
  })

  -- What is shown; `iconv.decode` is the first argument.
  unfoldable pub text : (B → Text → Text) → Window B → Option Text
  text decoded w = elim w.body [ none ↦ none | some b ↦ some (decoded b w.decode) ]

  -- Which of the buttons that refresh and save are enabled.
  pub buttons : Window B → Bool × Bool
  buttons w = elim w.loading [
    | idle ↦ (true, elim w.body [ none ↦ false | some b ↦ true ])
    | _ ↦ (false, false)
  ]

-- The message of the select, if there is one.
pub decode_message : (Text → Bool) → Text → Option Text
decode_message exists name =
    if exists name then none else some (lit "Decoder[" ++ name ++ lit "] not available")

-- `RequestPreviewDialog` with its `state`, its `previewState` and the preview of the directory.
pub record Dialogs : Type 0 where
  pub asking : RequestPreview
  pub text_window : RequestPreview
  pub preview : RequestPreview

pub data Button : Type 0 where
  force_view open_preview close_request close_window : Button

pub click : Button → Dialogs → Dialogs
click force_view d = record d {
  asking = record d.asking { open_ = false };
  text_window = record { open_ = true; lstat = d.asking.lstat };
}
click open_preview d = record d {
  asking = record d.asking { open_ = false };
  preview = record { open_ = true; lstat = d.asking.lstat };
}
click close_request d = record d { asking = record d.asking { open_ = false } }
click close_window d = record d { text_window = record d.text_window { open_ = false } }
