-- ===== src/Snackbar/Scaffold/Tests.antt =====
-- Messages of the snackbar of web/src/components/Scaffold.tsx.
use web_ssh_tool.Common.{ℕ, suc, ◌≡◌, refl, true, false, some, List, [], ◌∷◌, ◌++◌, length}
use web_ssh_tool.Snackbar.{post, finish, clear}
use web_ssh_tool.Snackbar.Scaffold.{
  Scaffold, Event, idle, show_message, over_150, clear_all, create, run,
}
use web_ssh_tool.Snackbar.Scaffold.Shown.{InStep, run-InStep, pauses}
use web_ssh_tool.Snackbar.Scaffold.Drained.{messages_drain}

abbrev events : List (Event ℕ)
events =
    show_message 1 ∷ show_message 2 ∷ clear_all ∷ show_message 3 ∷ over_150 ∷ show_message 4 ∷ []

abbrev state : Scaffold ℕ
state = run events create

-- The second message is cleared before it is shown; the third is shown, and the fourth waits.
shown : (state.message ≡ some 3) × (state.open_ ≡ true) × (state.seq.fns ≡ 4 ∷ [])
unfolding run create post clear finish
shown = (refl, refl, refl)

run-InStep_example : InStep state.stage state
run-InStep_example = run-InStep events

messages_drain_example :
    ((run (pauses (suc (length state.seq.fns))) state).stage ≡ idle)
    × ((run (pauses (suc (length state.seq.fns))) state).open_ ≡ false)
    × ((run (pauses (suc (length state.seq.fns))) state).seq.log ≡ state.seq.log ++ state.seq.fns)
messages_drain_example = messages_drain events
