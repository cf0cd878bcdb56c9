-- ===== src/Explorer/Preview/Fresh.antt =====
-- The bytes that `PreviewWindow` (RequestPreviewDialog.tsx) shows, and the file that it was given.
use web_ssh_tool.Common.{◌≡◌, refl, Bool, Option, none, some}
use web_ssh_tool.Common.Text.{Text}
use web_ssh_tool.Explorer.Preview.{Window, Event, run_of, idle, step, mount}
use web_ssh_tool.Explorer.Preview.Sound.{Holds, Honest, IsSound, step_at-IsSound, mount-IsSound}

module _ {B : Type 0} (Answers : Text → B → Type 0) where
  -- The windows that come of one by honest events.
  pub data Reach (exists : Text → Bool) (w : Window B) : Window B → Type 0 where
    here : Reach exists w w
    next :
        {v : Window B}
        → Reach exists w v
        → (e : Event B) → Honest Answers e v
        → Reach exists w (step exists e v)

  Reach-IsSound :
      {exists : Text → Bool} {w v : Window B}
      → Reach exists w v
      → IsSound Answers w
      → IsSound Answers v
  unfolding step
  Reach-IsSound here s = s
  Reach-IsSound {exists} (next {v} r e h) s =
      step_at-IsSound Answers (run_of e v.runs) exists e v refl h (Reach-IsSound r s)

  -- However files are shown one after the other, requests are aborted and answers, failures and
  -- progress come in, the window never shows bytes of another file once it stops loading: if what a
  -- request loads is always an answer for its path, bytes that the window has while it does not load
  -- are an answer for the path that it was last given.
  pub window_shows_its_file :
      (exists : Text → Bool) (path : Option Text) (w : Window B) (b : B)
      → Reach exists (mount path) w
      → w.loading ≡ idle
      → w.body ≡ some b
      → (p : Text) × (w.path ≡ some p) × Answers p b
  window_shows_its_file exists path w b r l e =
      of_path_and_body w.path w.body e ((Reach-IsSound r (mount-IsSound Answers path)).ready l)
    where
      of_path_and_body :
          (q : Option Text) (o : Option B)
          → o ≡ some b
          → Holds Answers q o
          → (p : Text) × (q ≡ some p) × Answers p b
      of_path_and_body none none h k = cc
      of_path_and_body (some p) none h k = cc
      of_path_and_body none (some c) h k = absurd k
      of_path_and_body (some p) (some c) h k = let same : c ≡ b = cc in (p, refl, rw (← same) k)
