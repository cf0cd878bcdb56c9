-- ===== src/SignIn/Visibility.antt =====
-- The button of web/src/pages/SignInPage.tsx that shows the password for three seconds.
pub mod Shown
mod Tests
use web_ssh_tool.Common.{
  ℕ, ◌+◌, Bool, true, false, Option, none, some, List, [], ◌∷◌, ◌++◌, any, leb, if◌then◌else◌,
}
use web_ssh_tool.Components.LongPress.{clear_timeout, left}

-- `state.visibility`, and the timeouts of the window with the milliseconds that are left.
pub record Field : Type 0 where
  pub visibility : Option ℕ
  pub timers : List (ℕ × ℕ)
  pub next : ℕ

unfoldable pub create : Field
create = record { visibility = none; timers = []; next = 1 }

-- `onClick`; the id of a timeout is not 0.
unfoldable pub click : Field → Field
click f = elim f.visibility [
  | some id ↦ record f { visibility = none; timers = clear_timeout (some id) f.timers }
  | none ↦ record f {
    visibility = some f.next;
    timers = f.timers ++ (f.next, 3000) ∷ [];
    next = f.next + 1;
  }
]

-- Milliseconds pass; a timeout that is over hides the password.
unfoldable pub elapse : ℕ → Field → Field
elapse d f =
    let f' : Field = record f { timers = left d f.timers } in
    if any (λ t. leb t.1 d) f.timers then record f' { visibility = none } else f'

-- The `type` of the text field is `text`, and not `password`.
abbrev pub is_text : Field → Bool
is_text f = elim f.visibility [ none ↦ false | some id ↦ true ]

pub data Event : Type 0 where
  clicked : Event
  passed : ℕ → Event

unfoldable pub step : Event → Field → Field
unfolding click elapse
step clicked f = click f
step (passed d) f = elapse d f

unfoldable pub run : List Event → Field → Field
unfolding step
run [] f = f
run (e ∷ es) f = run es (step e f)
