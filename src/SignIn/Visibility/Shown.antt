-- ===== src/SignIn/Visibility/Shown.antt =====
-- How long the password is shown (SignInPage.tsx).
use web_ssh_tool.Common.{
  ℕ, ◌+◌, ◌-◌, ◌≡◌, ◌<◌, refl, ap, ◌∙◌, Bool, true, false, not, ◌&&◌, ◌||◌, none, some, List, [],
  ◌∷◌, leb, ltb, ==_refl, arith, if◌then◌else◌, Bool-cases, inl, inr,
}
use web_ssh_tool.Components.LongPress.{clear_timeout, left}
use web_ssh_tool.SignIn.Visibility.{
  Field, create, click, elapse, is_text, Event, clicked, passed, step, run,
}

-- Either the password is hidden and no timeout runs, or it is shown and its timeout runs alone.
data IsTimed : Field → Type 0 where
  hidden : (n : ℕ) → IsTimed (record { visibility = none; timers = []; next = n })
  shown : (i ms n : ℕ) → IsTimed (record { visibility = some i; timers = (i, ms) ∷ []; next = n })

click-IsTimed : (f : Field) → IsTimed f → IsTimed (click f)
unfolding click clear_timeout
click-IsTimed f (hidden n) = shown n 3000 (n + 1)
click-IsTimed f (shown i ms n) = rw (==_refl i) (hidden n)

timed_if :
    (b : Bool) (i ms n : ℕ) (ts : List (ℕ × ℕ))
    → ts ≡ (if b then [] else (i, ms) ∷ [])
    → IsTimed (
        if (b || false)
        then record { visibility = none; timers = ts; next = n }
        else record { visibility = some i; timers = ts; next = n })
timed_if true i ms n ts e = rw e (hidden n)
timed_if false i ms n ts e = rw e (shown i ms n)

elapse-IsTimed : (d : ℕ) (f : Field) → IsTimed f → IsTimed (elapse d f)
unfolding elapse left
elapse-IsTimed d f (hidden n) = hidden n
elapse-IsTimed d f (shown i ms n) = timed_if (leb ms d) i (ms - d) n _ refl

run-IsTimed : (es : List Event) (f : Field) → IsTimed f → IsTimed (run es f)
unfolding run step
run-IsTimed [] f h = h
run-IsTimed (clicked ∷ es) f h = run-IsTimed es (click f) (click-IsTimed f h)
run-IsTimed (passed d ∷ es) f h = run-IsTimed es (elapse d f) (elapse-IsTimed d f h)

-- Nothing but time passes.
abbrev pub passes : List ℕ → List Event
passes [] = []
passes (d ∷ ds) = passed d ∷ passes ds

abbrev pub sum : List ℕ → ℕ
sum [] = 0
sum (d ∷ ds) = d + sum ds

elapse_hidden :
    (d n : ℕ)
    → elapse d (record { visibility = none; timers = []; next = n })
      ≡ record { visibility = none; timers = []; next = n }
unfolding elapse left
elapse_hidden d n = refl

stays_hidden :
    (ds : List ℕ) (n : ℕ)
    → is_text (run (passes ds) (record { visibility = none; timers = []; next = n })) ≡ false
unfolding run step
stays_hidden [] n = refl
stays_hidden (d ∷ ds) n =
    ap (λ f. is_text (run (passes ds) f)) (elapse_hidden d n) ∙ stays_hidden ds n

elapse_over :
    (d i ms n : ℕ)
    → leb ms d ≡ true
    → elapse d (record { visibility = some i; timers = (i, ms) ∷ []; next = n })
      ≡ record { visibility = none; timers = []; next = n }
unfolding elapse left
elapse_over d i ms n e = rw e refl

elapse_less :
    (d i ms n : ℕ)
    → leb ms d ≡ false
    → elapse d (record { visibility = some i; timers = (i, ms) ∷ []; next = n })
      ≡ record { visibility = some i; timers = (i, ms - d) ∷ []; next = n }
unfolding elapse left
elapse_less d i ms n e = rw e refl

shown_while :
    (ds : List ℕ) (i ms n : ℕ)
    → 0 < ms
    → is_text (run (passes ds) (record { visibility = some i; timers = (i, ms) ∷ []; next = n }))
      ≡ ltb (sum ds) ms
unfolding run step
shown_while [] i ms n lt = ground arith
shown_while (d ∷ ds) i ms n lt = elim (Bool-cases (leb ms d)) [
  | inl e ↦
      ap (λ f. is_text (run (passes ds) f)) (elapse_over d i ms n e)
      ∙ stays_hidden ds n
      ∙ ground (arith, e)
  | inr e ↦
      ap (λ f. is_text (run (passes ds) f)) (elapse_less d i ms n e)
      ∙ shown_while ds i (ms - d) n (ground (arith, e))
      ∙ ground (arith, e)
]

click_then :
    (f : Field) (ds : List ℕ)
    → IsTimed f
    → is_text (run (passes ds) (click f)) ≡ (not (is_text f) && ltb (sum ds) 3000)
unfolding click clear_timeout
click_then f ds (hidden n) = shown_while ds n 3000 (n + 1) (omega arith)
click_then f ds (shown i ms n) = rw (==_refl i) (stays_hidden ds n)

-- After any clicks at any times: a further click on the button hides the password where it was
-- shown, and where it was hidden shows it for exactly the next 3000 milliseconds. No timeout of an
-- earlier click cuts this time short, and none is left behind.
pub click_shows :
    (es : List Event) (ds : List ℕ)
    → is_text (run (passes ds) (click (run es create)))
      ≡ (not (is_text (run es create)) && ltb (sum ds) 3000)
unfolding create
click_shows es ds = click_then (run es create) ds (run-IsTimed es create (hidden 1))
