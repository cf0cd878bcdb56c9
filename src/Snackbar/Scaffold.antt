-- ===== src/Snackbar/Scaffold.antt =====
-- The component `Scaffold` of web/src/components/Scaffold.tsx: the snackbar that shows the messages
-- of its sequence, each until it is dismissed or 3000 ms are over, with 150 ms after it.
pub mod Shown
pub mod Drained
mod Tests
use web_ssh_tool.Common.{Bool, true, false, Option, none, some, List, [], ◌∷◌, if◌then◌else◌}
use web_ssh_tool.Snackbar.{Sequence, empty, post, finish, clear}

-- What the function of the current message awaits: the race of `dismiss` and `delay(3000)`, or
-- `delay(150)`; there is none while nothing is shown.
pub data Stage : Type 0 where
  idle showing hiding : Stage

pub record Scaffold (M : Type 0) : Type 0 where
  pub seq : Sequence M
  pub open_ : Bool
  pub message : Option M
  pub stage : Stage

pub data Event (M : Type 0) : Type 0 where
  show_message : M → Event M
  dismissed over_3000 over_150 clear_current clear_all : Event M

module _ {M : Type 0} where
  pub create : Scaffold M
  create = record { seq = empty; open_ = false; message = none; stage = idle }

  -- The function that the sequence awaits now begins, if there is one.
  begin : Option M → Scaffold M → Scaffold M
  begin none s = record s { stage = idle }
  begin (some m) s = record s { message = some m; open_ = true; stage = showing }

  -- `postRaw`: the function begins at once if nothing runs.
  on_show : M → Scaffold M → Scaffold M
  unfolding begin
  on_show m s =
      let q = post m s.seq in
      if s.seq.running then record s { seq = q } else begin q.current (record s { seq = q })

  -- The race is over.
  hide : Stage → Scaffold M → Scaffold M
  hide showing s = record s { open_ = false; stage = hiding }
  hide idle s = s
  hide hiding s = s

  -- The last delay is over: the function returns.
  return_ : Stage → Scaffold M → Scaffold M
  unfolding begin
  return_ hiding s = let q = finish s.seq in begin q.current (record s { seq = q })
  return_ idle s = s
  return_ showing s = s

  pub step : Event M → Scaffold M → Scaffold M
  unfolding on_show hide return_
  step (show_message m) s = on_show m s
  step dismissed s = hide s.stage s
  step over_3000 s = hide s.stage s
  step over_150 s = return_ s.stage s
  step clear_current s = hide s.stage s
  step clear_all s = hide s.stage (record s { seq = clear s.seq })

  pub run : List (Event M) → Scaffold M → Scaffold M
  unfolding step
  run [] s = s
  run (e ∷ es) s = run es (step e s)
