-- ===== src/Terminal/Screen/Fitted.antt =====
-- A change of the size of its element reaches the shell (XTerminal.tsx, LayoutBuilder.tsx).
use web_ssh_tool.Common.{
  ℕ, zero, suc, ◌+◌, ◌-◌, ◌≡◌, ◌<◌, ◌≤◌, refl, ap, ◌∙◌, true, Option, none, some, List, [], ◌∷◌,
  ◌++◌, arith, ltb, inl, inr,
}
use web_ssh_tool.Components.Layout as Layout
use web_ssh_tool.Components.Layout.{Pixels, observed_entries}
use web_ssh_tool.Components.Layout.Settled.{settle, settle-Measured}
use web_ssh_tool.Terminal.{Controller, Request, shell_resize, resize}
use web_ssh_tool.Terminal.Screen.{
  FitAddon, Screen, create, size_in, on_resize, fit_on, fit, fit_frame, Event, laid_out, fits, step,
  run,
}

-- All the frames that `builder` asked for and that have not run.
abbrev pub fit_all : FitAddon → ℕ → Screen → Screen
fit_all a zero s = s
fit_all a (suc n) s = fit_all a n (fit_frame a s)

-- The controller has the size of the element, and the server was asked for it last.
pub record Fits (a : FitAddon) (e : ℕ) (s : Screen) : Type 0 where
  pub size : s.controller.size ≡ size_in a (s.layout.page e)
  pub asked :
      (before : List Request) × (s.sent
        ≡ before ++ shell_resize s.controller.id (size_in a (s.layout.page e)) ∷ [])

fit_lem :
    (a : FitAddon) (e : ℕ) (s : Screen)
    → s.layout.current ≡ some e
    → fit a s ≡ on_resize (size_in a (s.layout.page e)) s
unfolding fit
fit_lem a e s h = ap (λ c. fit_on a c s) h

-- One frame that runs.
fitted_once :
    (a : FitAddon) (e : ℕ) (s : Screen)
    → s.layout.current ≡ some e
    → s.fitted < s.layout.built
    → fit_frame a s ≡ record (on_resize (size_in a (s.layout.page e)) s) { fitted = s.fitted + 1 }
unfolding fit_frame
fitted_once a e s h lt =
    let b : ltb s.fitted s.layout.built ≡ true = ground arith in rw (fit_lem a e s h, b) refl

once-Fits :
    (a : FitAddon) (e : ℕ) (s : Screen)
    → Fits a e (record (on_resize (size_in a (s.layout.page e)) s) { fitted = s.fitted + 1 })
unfolding on_resize resize
once-Fits a e s = record { size = refl; asked = (s.sent, refl) }

all-Fits :
    (a : FitAddon) (e n : ℕ) (s : Screen)
    → s.layout.current ≡ some e
    → s.fitted + suc n ≡ s.layout.built
    → Fits a e (fit_all a (suc n) s)
unfolding on_resize resize
all-Fits a e zero s h eq = rw (fitted_once a e s h (omega (arith, eq))) (once-Fits a e s)
all-Fits a e (suc n) s h eq = rw (fitted_once a e s h (omega (arith, eq))) (
    all-Fits a e n (record (on_resize (size_in a (s.layout.page e)) s) { fitted = s.fitted + 1 }) h
      (omega (arith, eq)))

-- The observer tells of the element, and all the frames run that come of it.
abbrev pub settle_screen : FitAddon → Screen → Screen
settle_screen a s =
    let s' : Screen = record s { layout = settle s.layout } in
    fit_all a (s'.layout.built - s'.fitted) s'

enough :
    (a : FitAddon) (e n : ℕ) (s : Screen)
    → s.layout.current ≡ some e
    → s.fitted + n ≡ s.layout.built
    → s.fitted < s.layout.built
    → Fits a e (fit_all a n s)
enough a e zero s h eq lt = absurd (omega (arith, eq, lt))
enough a e (suc n) s h eq lt = all-Fits a e n s h eq

settle_screen-Fits :
    (a : FitAddon) (s : Screen) (e : ℕ)
    → s.layout.current ≡ some e
    → s.fitted ≤ s.layout.built
    → ¬ (s.layout.size ≡ some (s.layout.page e))
    → Fits a e (settle_screen a s)
settle_screen-Fits a s e h le other =
    let m = settle-Measured s.layout e h in
    let s' : Screen = record s { layout = settle s.layout } in
    elim m.renders [
      | inl same ↦ absurd (other same)
      | inr lt ↦
          enough a e (s'.layout.built - s'.fitted) s' (m.current ∙ h) (omega (arith, le, lt))
            (omega (arith, le, lt))
    ]

-- No more frames run than were asked for.
built_grows : (i : Layout.Event) (l : Layout.Layout) → l.built ≤ (Layout.step i l).built
unfolding Layout.step Layout.update_ref Layout.resize Layout.next_frame Layout.measure
built_grows (Layout.ref_changed ref) l = ground arith
built_grows (observed_entries n) l = ground arith
built_grows Layout.frame l = ground arith
built_grows Layout.rerender l = omega arith
built_grows Layout.unmount l = omega arith
built_grows (Layout.page_changed page) l = omega arith

fit_built :
    (a : FitAddon) (c : Option ℕ) (s : Screen) → (fit_on a c s).layout.built ≡ s.layout.built
unfolding on_resize
fit_built a none s = refl
fit_built a (some e) s = refl

fit_frame_le :
    (a : FitAddon) (s : Screen)
    → s.fitted ≤ s.layout.built
    → (fit_frame a s).fitted ≤ (fit_frame a s).layout.built
unfolding fit_frame fit
fit_frame_le a s h = ground (arith, fit_built a s.layout.current s)

step_le :
    (a : FitAddon) (i : Event) (s : Screen)
    → s.fitted ≤ s.layout.built
    → (step a i s).fitted ≤ (step a i s).layout.built
unfolding step
step_le a (laid_out i) s h = omega (arith, h, built_grows i s.layout)
step_le a fits s h = fit_frame_le a s h

run_le :
    (a : FitAddon) (is : List Event) (s : Screen)
    → s.fitted ≤ s.layout.built
    → (run a is s).fitted ≤ (run a is s).layout.built
unfolding run
run_le a [] s h = h
run_le a (i ∷ is) s h = run_le a is (step a i s) (step_le a i s h)

-- Whatever happened before: when the element of the terminal has another size than the one that was
-- measured last, the observer has told of it, and the frames have run that come of it, the shell has
-- the size of the element with the columns and rows that fit it, and the request for that size is
-- the last one.
pub size_reaches_shell :
    (a : FitAddon) (page : ℕ → Pixels) (c : Controller) (is : List Event) (e : ℕ)
    → (run a is (create page c)).layout.current ≡ some e
    → ¬ ((run a is (create page c)).layout.size ≡ some ((run a is (create page c)).layout.page e))
    → Fits a e (settle_screen a (run a is (create page c)))
unfolding create Layout.create
size_reaches_shell a page c is e h other =
    settle_screen-Fits a (run a is (create page c)) e h (run_le a is (create page c) (omega arith))
      other
