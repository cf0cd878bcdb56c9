-- ===== src/Explorer/Preview/Sound.antt =====
-- An invariant of `PreviewWindow` (RequestPreviewDialog.tsx): the body that is there while nothing
-- loads, and the requests that are under way.
use web_ssh_tool.Common.{
  ℕ, List, ◌+◌, ◌≡◌, ◌≢◌, refl, Bool, true, false, Option, none, some, Option-cases, Bool-cases,
  inl, inr, arith, ◌==◌, if◌then◌else◌,
}
use web_ssh_tool.Common.Keyed
use web_ssh_tool.Common.Text.{Text}
use web_ssh_tool.Explorer.Preview.{
  Window, Run, run_of, abort_run, Event, abort_at, is_current, show, press_refresh, url_ready,
  url_failed, progress, load, error, choose_decode, waiting, sent, over, idle, busy, part, cleanup,
  start, rerun, on_refresh, Loading, on_choose, on_error, on_progress, step_at, mount,
}

abort_run_quiet : (r : Run) (p : Text) → abort_run r ≢ sent p
abort_run_quiet (waiting q) p h = cc
abort_run_quiet (sent q) p h = cc
abort_run_quiet over p h = cc

abort_at-NoneSent :
    (c : Option ℕ) (runs : List (ℕ × Run)) (i : ℕ) (p : Text)
    → (Keyed.get i runs ≡ some (sent p) → c ≡ some i)
    → Keyed.get i (abort_at c runs) ≢ some (sent p)
abort_at-NoneSent none runs i p only h = cc (only h)
abort_at-NoneSent (some j) runs i p only h = elim (Option-cases (Keyed.get j runs)) [
  | inl e ↦ ground (arith, only, abort_at)
  | inr (r, e) ↦ ground (arith, only, Keyed.get-set j i (abort_run r) runs, abort_run_quiet r p)
]

is_current-true : (c : Option ℕ) (i : ℕ) → is_current c i ≡ true → c ≡ some i
is_current-true none i h = cc
is_current-true (some j) i h = ground arith

module _ {B : Type 0} (Answers : Text → B → Type 0) where
  -- The bytes are an answer for the path, if there are any.
  abbrev pub Holds : Option Text → Option B → Type 0
  Holds path none = Unit
  Holds none (some b) = ⊥
  Holds (some p) (some b) = Answers p b

  -- The event is possible: what a request for a path loads is an answer for that path.
  abbrev pub Honest : Event B → Window B → Type 0
  Honest (load i b) w = (p : Text) → Keyed.get i w.runs ≡ some (sent p) → Answers p b
  Honest _ w = Unit

  pub record IsSound (w : Window B) : Type 0 where
    pub ready : w.loading ≡ idle → Holds w.path w.body
    pub only_current :
        (i : ℕ) (p : Text)
        → Keyed.get i w.runs ≡ some (sent p)
        → (w.current ≡ some i) × (w.path ≡ some p)
    pub of_path :
        (i : ℕ) (p : Text)
        → w.current ≡ some i
        → Keyed.get i w.runs ≡ some (waiting p)
        → w.path ≡ some p

  -- No request is under way.
  abbrev NoneSent : List (ℕ × Run) → Type 0
  NoneSent runs = (i : ℕ) (p : Text) → Keyed.get i runs ≢ some (sent p)

  start-IsSound :
      (path : Option Text) (w : Window B)
      → w.current ≡ none
      → w.path ≡ path
      → NoneSent w.runs
      → IsSound (start path w)
  unfolding start
  start-IsSound none w c e n = record {
    ready = λ _. tt;
    only_current = λ i p h. absurd (n i p h);
    of_path = λ i p h k. cc;
  }
  start-IsSound (some q) w c e n = record {
    ready = λ h. cc;
    only_current = λ i p h. ground (arith, n i p, Keyed.get-set w.next i (waiting q) w.runs);
    of_path = λ i p h k. ground (arith, Keyed.get-set w.next i (waiting q) w.runs);
  }

  rerun-IsSound :
      (w : Window B)
      → ((i : ℕ) (p : Text) → Keyed.get i w.runs ≡ some (sent p) → w.current ≡ some i)
      → IsSound (rerun w)
  unfolding rerun cleanup
  rerun-IsSound w only =
      start-IsSound w.path (cleanup w) refl refl
        (λ i p. abort_at-NoneSent w.current w.runs i p (only i p))

  -- The run `i` is over, and nothing is loaded of it.
  settle-IsSound :
      (i : ℕ) (body : Option B) (w : Window B)
      → Holds w.path body
      → IsSound w
      → IsSound (record w { body = body; loading = idle; runs = Keyed.set i over w.runs })
  settle-IsSound i body w h s = record {
    ready = λ _. h;
    only_current = λ j p e. ground (arith, s.only_current j p, Keyed.get-set i j over w.runs);
    of_path = λ j p c e. ground (arith, s.of_path j p c, Keyed.get-set i j over w.runs);
  }

  url_ready-IsSound :
      (i : ℕ) (p : Text) (w : Window B)
      → Keyed.get i w.runs ≡ some (waiting p)
      → IsSound w
      → IsSound
          (record w { runs = Keyed.set i (if is_current w.current i then sent p else over) w.runs })
  url_ready-IsSound i p w h s = record {
    ready = s.ready;
    only_current = λ j q e. ground (
      arith,
      s.only_current j q,
      s.of_path i p,
      is_current-true w.current i,
      Keyed.get-set i j (if is_current w.current i then sent p else over) w.runs,
    );
    of_path = λ j q c e. ground (
      arith,
      s.of_path j q,
      Keyed.get-set i j (if is_current w.current i then sent p else over) w.runs,
    );
  }

  on_refresh-IsSound : (l : Loading) (w : Window B) → IsSound w → IsSound (on_refresh l w)
  unfolding on_refresh
  on_refresh-IsSound idle w s =
      rerun-IsSound (record w { refresh = w.refresh + 1 }) (λ i p e. (s.only_current i p e).0)
  on_refresh-IsSound busy w s = s
  on_refresh-IsSound (part loaded total) w s = s

  on_progress-IsSound :
      (loaded total : ℕ) (computable : Bool) (w : Window B)
      → IsSound w
      → IsSound (on_progress loaded total computable w)
  unfolding on_progress
  on_progress-IsSound loaded total false w s = elim (Bool-cases (total == 0)) [
    | inl e ↦ rw e s
    | inr e ↦ rw e s
  ]
  on_progress-IsSound loaded total true w s = elim (Bool-cases (total == 0)) [
    | inl e ↦ rw e s
    | inr e ↦ rw e (record { ready = λ h. cc; only_current = s.only_current; of_path = s.of_path })
  ]

  on_choose-IsSound :
      (exists : Text → Bool) (name : Text) (w : Window B)
      → IsSound w
      → IsSound (on_choose exists name w)
  unfolding on_choose
  on_choose-IsSound exists name w s = elim (Bool-cases (exists name)) [
    | inl e ↦ rw e (record { ready = s.ready; only_current = s.only_current; of_path = s.of_path })
    | inr e ↦ rw e s
  ]

  pub step_at-IsSound :
      (r : Option Run) (exists : Text → Bool) (e : Event B) (w : Window B)
      → run_of e w.runs ≡ r
      → Honest e w
      → IsSound w
      → IsSound (step_at r exists e w)
  unfolding step_at on_error
  step_at-IsSound r exists (show path) w q h s =
      rerun-IsSound (record w { path = path }) (λ i p e. (s.only_current i p e).0)
  step_at-IsSound r exists press_refresh w q h s = on_refresh-IsSound w.loading w s
  step_at-IsSound none exists (url_ready i) w q h s = s
  step_at-IsSound (some (waiting p)) exists (url_ready i) w q h s = url_ready-IsSound i p w q s
  step_at-IsSound (some (sent p)) exists (url_ready i) w q h s = s
  step_at-IsSound (some over) exists (url_ready i) w q h s = s
  step_at-IsSound none exists (url_failed i) w q h s = s
  step_at-IsSound (some (waiting p)) exists (url_failed i) w q h s = settle-IsSound i none w tt s
  step_at-IsSound (some (sent p)) exists (url_failed i) w q h s = s
  step_at-IsSound (some over) exists (url_failed i) w q h s = s
  step_at-IsSound none exists (progress i loaded total computable) w q h s = s
  step_at-IsSound (some (waiting p)) exists (progress i loaded total computable) w q h s = s
  step_at-IsSound (some (sent p)) exists (progress i loaded total computable) w q h s =
      on_progress-IsSound loaded total computable w s
  step_at-IsSound (some over) exists (progress i loaded total computable) w q h s = s
  step_at-IsSound none exists (load i b) w q h s = s
  step_at-IsSound (some (waiting p)) exists (load i b) w q h s = s
  step_at-IsSound (some (sent p)) exists (load i b) w q h s =
      settle-IsSound i (some b) w (rw (s.only_current i p q).1 (h p q)) s
  step_at-IsSound (some over) exists (load i b) w q h s = s
  step_at-IsSound none exists (error i) w q h s = s
  step_at-IsSound (some (waiting p)) exists (error i) w q h s = s
  step_at-IsSound (some (sent p)) exists (error i) w q h s = settle-IsSound i none w tt s
  step_at-IsSound (some over) exists (error i) w q h s = s
  step_at-IsSound r exists (choose_decode name) w q h s = on_choose-IsSound exists name w s

  pub mount-IsSound : (path : Option Text) → IsSound (mount path)
  unfolding mount Keyed.get
  mount-IsSound path = start-IsSound path _ refl refl (λ i p. ground arith)
