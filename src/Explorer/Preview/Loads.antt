-- ===== src/Explorer/Preview/Loads.antt =====
-- The requests of `PreviewWindow` (RequestPreviewDialog.tsx): that of the file which is shown, and
-- those of files that were shown before.
use web_ssh_tool.Common.{
  ℕ, ◌≡◌, ◌≢◌, refl, Bool, Option, none, some, List, [], ◌∷◌, arith, ◌++◌, All, if◌then◌else◌,
}
use web_ssh_tool.Common.Keyed
use web_ssh_tool.Common.Text.{Text}
use web_ssh_tool.Explorer.Preview.{
  Window, Run, run_of, abort_at, Event, show, press_refresh, url_ready, url_failed, progress, load,
  error, choose_decode, waiting, sent, over, idle, cleanup, start, rerun, on_choose, on_error,
  on_progress, step_at, step, run, is_current,
}

module _ {B : Type 0} where
  -- The event is not about the run `i`, and does not start another one.
  abbrev pub Spares : ℕ → Event B → Type 0
  Spares i (show path) = ⊥
  Spares i press_refresh = ⊥
  Spares i (url_ready j) = j ≢ i
  Spares i (url_failed j) = j ≢ i
  Spares i (progress j loaded total computable) = Unit
  Spares i (load j b) = j ≢ i
  Spares i (error j) = j ≢ i
  Spares i (choose_decode name) = Unit

  record Waits (i : ℕ) (p : Text) (r : Run) (w : Window B) : Type 0 where
    found : Keyed.get i w.runs ≡ some r
    current : w.current ≡ some i
    path : w.path ≡ some p

  step_at-Waits :
      (o : Option Run) (exists : Text → Bool) (e : Event B) (i : ℕ) (p : Text) (r : Run)
      (w : Window B)
      → Spares i e
      → Waits i p r w
      → Waits i p r (step_at o exists e w)
  unfolding step_at on_choose on_error on_progress
  step_at-Waits o exists (show path) i p r w n h = absurd n
  step_at-Waits o exists press_refresh i p r w n h = absurd n
  step_at-Waits o exists (choose_decode name) i p r w n h = ground arith
  step_at-Waits o exists (progress j loaded total computable) i p r w n h = ground arith
  step_at-Waits o exists (url_ready j) i p r w n h = ground (
    arith,
    Keyed.get-set j i over w.runs,
    λ (q : Text). Keyed.get-set j i (if is_current w.current j then sent q else over) w.runs,
  )
  step_at-Waits o exists (url_failed j) i p r w n h = ground (arith, Keyed.get-set j i over w.runs)
  step_at-Waits o exists (load j b) i p r w n h = ground (arith, Keyed.get-set j i over w.runs)
  step_at-Waits o exists (error j) i p r w n h = ground (arith, Keyed.get-set j i over w.runs)

  run-Waits :
      (exists : Text → Bool) (es : List (Event B)) (i : ℕ) (p : Text) (r : Run) (w : Window B)
      → All (Spares i) es
      → Waits i p r w
      → Waits i p r (run exists es w)
  unfolding run step
  run-Waits exists [] i p r w n h = h
  run-Waits exists (e ∷ es) i p r w n h =
      run-Waits exists es i p r (step exists e w) n.1
        (step_at-Waits (run_of e w.runs) exists e i p r w n.0 h)

  show-Waits :
      (p : Text) (exists : Text → Bool) (w : Window B)
      → Waits w.next p (waiting p) (step exists (show (some p)) w)
  unfolding step step_at rerun start cleanup
  show-Waits p exists w =
      ground (arith, Keyed.get-set w.next w.next (waiting p) (abort_at w.current w.runs))

  url-Waits :
      (i : ℕ) (p : Text) (exists : Text → Bool) (w : Window B)
      → Waits i p (waiting p) w
      → Waits i p (sent p) (step exists (url_ready i) w)
  unfolding step step_at
  url-Waits i p exists w h = ground (
    arith,
    h.found,
    h.current,
    h.path,
    Keyed.get-set i i (if is_current w.current i then sent p else over) w.runs,
    is_current,
  )

  run-append :
      (exists : Text → Bool) (es fs : List (Event B)) (w : Window B)
      → run exists (es ++ fs) w ≡ run exists fs (run exists es w)
  unfolding run
  run-append exists [] fs w = refl
  run-append exists (e ∷ es) fs w = run-append exists es fs (step exists e w)

  IsLoaded : Text → B → Window B → Type 0
  IsLoaded p b w = (w.loading ≡ idle) × (w.body ≡ some b) × (w.path ≡ some p)

  answered-IsLoaded :
      (exists : Text → Bool) (i : ℕ) (p : Text) (b : B) (w : Window B)
      → Waits i p (sent p) w
      → IsLoaded p b (step exists (load i b) w)
  unfolding step step_at IsLoaded
  answered-IsLoaded exists i p b w h = rw (h.found) (refl, refl, h.path)

  after_url :
      (exists : Text → Bool) (i : ℕ) (p : Text) (b : B) (fs : List (Event B)) (w : Window B)
      → All (Spares i) fs
      → Waits i p (waiting p) w
      → IsLoaded p b (run exists (url_ready i ∷ (fs ++ load i b ∷ [])) w)
  unfolding run
  after_url exists i p b fs w n h =
      rw (run-append exists fs (load i b ∷ []) (step exists (url_ready i) w)) (
        answered-IsLoaded exists i p b _
          (run-Waits exists fs i p (sent p) _ n (url-Waits i p exists w h)))

  -- A file that is shown is loaded, whatever else happens in between: after its path was given, its
  -- URL came and its request was answered by some bytes, the window does not load and has these
  -- bytes for this path. Before the URL, and between it and the answer, there may be any events of
  -- the requests of other files, any progress and any choice of the encoding.
  pub shown_file_loads :
      (exists : Text → Bool) (p : Text) (b : B) (es fs : List (Event B)) (w : Window B)
      → All (Spares w.next) es
      → All (Spares w.next) fs
      → let v =
          run exists (show (some p) ∷ (es ++ url_ready w.next ∷ (fs ++ load w.next b ∷ []))) w in
        (v.loading ≡ idle) × (v.body ≡ some b) × (v.path ≡ some p)
  unfolding run IsLoaded
  shown_file_loads exists p b es fs w he hf =
      rw
        (run-append exists es (url_ready w.next ∷ (fs ++ load w.next b ∷ []))
          (step exists (show (some p)) w))
        (after_url exists w.next p b fs _ hf
          (run-Waits exists es w.next p (waiting p) _ he (show-Waits p exists w)))

  -- A request whose URL cannot be had stops the window although it was aborted: if the run `i` waits
  -- for its URL while another run is the current one and its request is under way, the failure of
  -- the former takes the bytes away and ends the loading, and the request of the latter goes on.
  pub old_failure_stops_loading :
      (exists : Text → Bool) (i j : ℕ) (p q : Text) (w : Window B)
      → Keyed.get i w.runs ≡ some (waiting p)
      → Keyed.get j w.runs ≡ some (sent q)
      → w.current ≡ some j
      → let v = step exists (url_failed i) w in
        (v.loading ≡ idle)
        × (v.body ≡ none)
        × (v.current ≡ some j)
        × (Keyed.get j v.runs ≡ some (sent q))
  unfolding step step_at on_error
  old_failure_stops_loading exists i j p q w hi hj c =
      rw hi (refl, refl, c, ground (arith, Keyed.get-set i j over w.runs))
