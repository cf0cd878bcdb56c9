-- ===== src/SignIn/Visibility/Tests.antt =====
-- The password is shown, hidden, and shown again.
use web_ssh_tool.Common.{◌≡◌, not, ◌&&◌, List, [], ◌∷◌, ltb}
use web_ssh_tool.SignIn.Visibility.{create, click, is_text, Event, clicked, passed, run}
use web_ssh_tool.SignIn.Visibility.Shown.{passes, sum, click_shows}

abbrev events : List Event
events = clicked ∷ passed 2000 ∷ clicked ∷ passed 10 ∷ []

click_shows_example :
    is_text (run (passes (1500 ∷ 1400 ∷ [])) (click (run events create)))
    ≡ (not (is_text (run events create)) && ltb (sum (1500 ∷ 1400 ∷ [])) 3000)
click_shows_example = click_shows events (1500 ∷ 1400 ∷ [])
