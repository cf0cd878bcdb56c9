-- ===== src/Components/LongPress/Tests.antt =====
-- Presses of the buttons of web/src/components/LongPressButton.tsx.
use web_ssh_tool.Common.{◌≡◌, refl, true, false, List, [], ◌∷◌, arith}
use web_ssh_tool.Components.LongPress.{press_start, press_end, long_press, create, run}
use web_ssh_tool.Components.LongPress.Held.{
  Act, hold, hover_out, wait, events, expected, at_rest, presses_held_long_enough,
}

abbrev acts : List Act
acts = hold false (400 ∷ 700 ∷ []) ∷ hover_out ∷ hold true (999 ∷ []) ∷ wait 5000 ∷ []

created : create ≡ at_rest 1
unfolding create
created = refl

calls :
    (run 1000 (events acts) create).1
    ≡ press_start ∷ long_press ∷ press_end ∷ press_end ∷ press_start ∷ press_end ∷ []
unfolding create run
calls = refl

presses_held_long_enough_example : (run 1000 (events acts) (at_rest 1)).1 ≡ expected 1000 acts
presses_held_long_enough_example = presses_held_long_enough 1000 acts 1 (omega arith)
