-- ===== src/Components/LongPress/Held.antt =====
-- How long a button of web/src/components/LongPressButton.tsx is held, and what it calls.
use web_ssh_tool.Common.{
  ℕ, ◌+◌, ◌-◌, ◌≤◌, ◌<◌, ◌≡◌, refl, sym, ap, Bool, true, false, Option, none, some, List, [], ◌∷◌,
  ◌++◌, map, arith, leb, if◌then◌else◌, Bool-cases, inl, inr,
}
use mathlib.Core.List.{append_assoc}
use web_ssh_tool.Components.LongPress.{
  Button, Callback, press_start, press_end, long_press, Event, mouse_down, mouse_up, mouse_leave,
  elapse, clear, on_down, left, calls, step, run,
}

-- What a user does with one button of the mouse: press, hold it for some time, in pieces, and then
-- let it go (`false`) or leave with it (`true`); leave without having pressed; or wait.
pub data Act : Type 0 where
  hold : Bool → List ℕ → Act
  hover_out : Act
  wait : ℕ → Act

abbrev pub sum : List ℕ → ℕ
sum [] = 0
sum (d ∷ ds) = d + sum ds

abbrev pub end_of : Bool → Event
end_of true = mouse_leave
end_of false = mouse_up

abbrev pub events : List Act → List Event
events [] = []
events (hold leaves ds ∷ acts) = mouse_down ∷ (map elapse ds ++ end_of leaves ∷ events acts)
events (hover_out ∷ acts) = mouse_leave ∷ events acts
events (wait d ∷ acts) = elapse d ∷ events acts

-- The calls of the acts where a press counts if it was held for `ms` milliseconds.
abbrev pub when_held : ℕ → List ℕ → List Callback
when_held ms ds = if leb ms (sum ds) then long_press ∷ [] else []

abbrev pub expected : ℕ → List Act → List Callback
expected ms [] = []
expected ms (hold leaves ds ∷ acts) =
    press_start ∷ (when_held ms ds ++ press_end ∷ expected ms acts)
expected ms (hover_out ∷ acts) = press_end ∷ expected ms acts
expected ms (wait d ∷ acts) = expected ms acts

run-append-calls :
    (ms : ℕ) (es fs : List Event) (b : Button)
    → (run ms (es ++ fs) b).1 ≡ (run ms es b).1 ++ (run ms fs (run ms es b).0).1
unfolding run
run-append-calls ms [] fs b = refl
run-append-calls ms (e ∷ es) fs b = rw (run-append-calls ms es fs (step ms e b).0) (
    sym (
      append_assoc (step ms e b).1 (run ms es (step ms e b).0).1
        (run ms fs (run ms es (step ms e b).0).0).1))

abbrev held : Bool → Option ℕ → List (ℕ × ℕ) → ℕ → Button
held t o ts n = record { tooltip_on = t; down = o; timers = ts; next = n }

-- Time passes while no timeout runs.
elapses_idle :
    (ms : ℕ) (ds : List ℕ) (t : Bool) (o : Option ℕ) (n : ℕ)
    → run ms (map elapse ds) (held t o [] n) ≡ (held t o [] n, [])
unfolding run step left calls
elapses_idle ms [] t o n = refl
elapses_idle ms (d ∷ ds) t o n = ground (arith, elapses_idle ms ds t o n)

-- Time passes while one runs.
elapses_held :
    (ms r i : ℕ) (ds : List ℕ) (t : Bool) (o : Option ℕ) (n : ℕ)
    → 0 < r
    → run ms (map elapse ds) (held t o ((i, r) ∷ []) n)
      ≡ (held t o (if leb r (sum ds) then [] else (i, r - sum ds) ∷ []) n, when_held r ds)
unfolding run step left calls
elapses_held ms r i [] t o n p = ground arith
elapses_held ms r i (d ∷ ds) t o n p = elim (Bool-cases (leb r d)) [
  | inl e ↦ rw (e, elapses_idle ms ds t o n) (ground arith)
  | inr e ↦ rw (e, elapses_held ms (r - d) i ds t o n (ground arith)) (ground arith)
]

abbrev pub at_rest : ℕ → Button
at_rest n = held false none [] n

end_cleared :
    (ms i r n : ℕ) (leaves over : Bool)
    → step ms (end_of leaves) (held true (some i) (if over then [] else (i, r) ∷ []) n)
      ≡ (at_rest n, press_end ∷ [])
unfolding step clear
end_cleared ms i r n true true = refl
end_cleared ms i r n false true = refl
end_cleared ms i r n true false = ground arith
end_cleared ms i r n false false = ground arith

-- Presses with one button of the mouse: starting at rest, the button calls `onLongPress` once in
-- each press that is held for at least the timeout and in no other one, between the calls of
-- `onLongPressStart` and `onLongPressEnd` for the press, whether it ends by letting go or leaving;
-- leaving without a press calls `onLongPressEnd` alone, and waiting calls nothing.
pub presses_held_long_enough :
    (ms : ℕ) (acts : List Act) (n : ℕ)
    → 0 < ms
    → (run ms (events acts) (at_rest n)).1 ≡ expected ms acts
unfolding run
presses_held_long_enough ms [] n p = refl
presses_held_long_enough ms (hold leaves ds ∷ acts) n p =
    ap (λ (cs : List Callback). press_start ∷ cs)
      (rw
        (
          run-append-calls ms (map elapse ds) (end_of leaves ∷ events acts)
              (held true (some n) ((n, ms) ∷ []) (n + 1)),
          elapses_held ms ms n ds true (some n) (n + 1) p,
        )
        (ap (λ (cs : List Callback). when_held ms ds ++ cs)
          (rw (end_cleared ms n (ms - sum ds) (n + 1) leaves (leb ms (sum ds))) (
            ap (λ (cs : List Callback). press_end ∷ cs)
              (presses_held_long_enough ms acts (n + 1) p)))))
presses_held_long_enough ms (hover_out ∷ acts) n p =
    ap (λ (cs : List Callback). press_end ∷ cs) (presses_held_long_enough ms acts n p)
presses_held_long_enough ms (wait d ∷ acts) n p = presses_held_long_enough ms acts n p

-- Two buttons of the mouse: if the button is pressed again before it was let go, and then let go
-- twice at once, the first timeout is forgotten, and `onLongPress` is called when it is over, although
-- nothing is held.
pub forgotten_press :
    (ms d n : ℕ)
    → ms ≤ d
    → (run ms (mouse_down ∷ mouse_down ∷ mouse_up ∷ mouse_up ∷ elapse d ∷ []) (at_rest n)).1
      ≡ press_start ∷ press_start ∷ press_end ∷ press_end ∷ long_press ∷ []
unfolding run step on_down clear left calls
forgotten_press ms d n h = ground arith
