-- ===== src/Components/LongPress.antt =====
-- web/src/components/LongPressButton.tsx: a button that acts when it is held long enough. Both
-- buttons of the file have the same handlers.
pub mod Held
mod Tests
use web_ssh_tool.Common.{
  ℕ, ◌+◌, ◌-◌, Bool, true, false, not, Option, none, some, List, [], ◌∷◌, ◌++◌, keep, leb, ◌==◌,
  if◌then◌else◌,
}

-- `tooltipOn` and `down`, and the timeouts of the window that run: their ids, in the order in which
-- they were set, with the milliseconds that are left.
pub record Button : Type 0 where
  pub tooltip_on : Bool
  pub down : Option ℕ
  pub timers : List (ℕ × ℕ)
  pub next : ℕ

-- `onLongPressStart`, `onLongPressEnd` and `onLongPress`.
pub data Callback : Type 0 where
  press_start press_end long_press : Callback

-- The events of the mouse, and milliseconds that pass.
pub data Event : Type 0 where
  mouse_down mouse_up mouse_leave : Event
  elapse : ℕ → Event

pub create : Button
create = record { tooltip_on = false; down = none; timers = []; next = 1 }

-- `window.clearTimeout(id)`
unfoldable pub clear_timeout : Option ℕ → List (ℕ × ℕ) → List (ℕ × ℕ)
clear_timeout none ts = ts
clear_timeout (some i) ts = keep (λ t. not (t.0 == i)) ts

unfoldable pub clear : Button → Button × List Callback
unfolding clear_timeout
clear b = (
  record b { tooltip_on = false; down = none; timers = clear_timeout b.down b.timers },
  press_end ∷ [],
)

-- The first argument is `timeout ?? 1000`.
unfoldable pub on_down : ℕ → Button → Button × List Callback
on_down ms b = (
  record b {
    tooltip_on = true;
    down = some b.next;
    timers = b.timers ++ (b.next, ms) ∷ [];
    next = b.next + 1;
  },
  press_start ∷ [],
)

-- The timeouts after some milliseconds, and the calls of those that are over.
unfoldable pub left : ℕ → List (ℕ × ℕ) → List (ℕ × ℕ)
left d [] = []
left d ((i, ms) ∷ ts) = let rest = left d ts in if leb ms d then rest else (i, ms - d) ∷ rest

unfoldable pub calls : ℕ → List (ℕ × ℕ) → List Callback
calls d [] = []
calls d ((i, ms) ∷ ts) = let rest = calls d ts in if leb ms d then long_press ∷ rest else rest

unfoldable pub step : ℕ → Event → Button → Button × List Callback
unfolding clear on_down left calls
step ms mouse_down b = on_down ms b
step ms mouse_up b = clear b
step ms mouse_leave b = clear b
step ms (elapse d) b = (record b { timers = left d b.timers }, calls d b.timers)

-- The button after some events, and the calls that they made.
unfoldable pub run : ℕ → List Event → Button → Button × List Callback
unfolding step
run ms [] b = (b, [])
run ms (e ∷ es) b =
    let (b', called) = step ms e b in let (b'', more) = run ms es b' in (b'', called ++ more)
