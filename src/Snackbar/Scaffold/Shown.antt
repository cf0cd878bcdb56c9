-- ===== src/Snackbar/Scaffold/Shown.antt =====
-- What the snackbar of web/src/components/Scaffold.tsx shows, and when.
use web_ssh_tool.Common.{
  ℕ, zero, suc, ◌≡◌, ◌≢◌, refl, true, false, Option, none, some, List, [], ◌∷◌, ◌++◌, arith,
}
use web_ssh_tool.Snackbar.{Sequence, next, start, post, finish, pop_all, clear}
use web_ssh_tool.Snackbar.Scaffold.{
  Stage, idle, showing, hiding, Scaffold, Event, show_message, dismissed, over_3000, over_150,
  clear_current, clear_all, create, begin, on_show, hide, return_, step, run,
}

module _ {M : Type 0} where
  -- The sequence at the end of a function and at a new one.
  pub finish_last :
      (q : Sequence M) (m : M)
      → q.current ≡ some m
      → q.fns ≡ []
      → finish q ≡ record q { current = none; running = false }
  unfolding finish next
  finish_last q m c f = ground arith

  pub finish_next :
      (q : Sequence M) (m p : M) (ps : List M)
      → q.current ≡ some m
      → q.fns ≡ p ∷ ps
      → finish q ≡ record q { fns = ps; current = some p; log = q.log ++ p ∷ [] }
  unfolding finish next
  finish_next q m p ps c f = rw (c, f, next)

  post_idle :
      (q : Sequence M) (m : M)
      → q.running ≡ false
      → q.fns ≡ []
      → post m q ≡ record q { running = true; fns = []; current = some m; log = q.log ++ m ∷ [] }
  unfolding post start next
  post_idle q m r f = rw (r, f, start)

  post_busy :
      (q : Sequence M) (m : M) → q.running ≡ true → post m q ≡ record q { fns = q.fns ++ m ∷ [] }
  unfolding post start
  post_busy q m r = rw (r, start)

  -- The sequence runs the function of the message.
  abbrev pub Runs : Sequence M → Option M → Type 0
  Runs q message = (q.running ≡ true) × (q.current ≡ message) × (message ≢ none)

  -- The snackbar with the sequence, by what is awaited: it is open exactly while a message is shown.
  abbrev pub InStep : Stage → Scaffold M → Type 0
  InStep idle s =
      (s.seq.running ≡ false) × (s.seq.current ≡ none) × (s.seq.fns ≡ []) × (s.open_ ≡ false)
  InStep showing s = Runs s.seq s.message × (s.open_ ≡ true)
  InStep hiding s = Runs s.seq s.message × (s.open_ ≡ false)

  hide-InStep :
      (g : Stage) (s : Scaffold M) → s.stage ≡ g → InStep g s → InStep (hide g s).stage (hide g s)
  unfolding hide
  hide-InStep idle s e h = rw e h
  hide-InStep hiding s e h = rw e h
  hide-InStep showing s e h = (h.0, refl)

  pub some_of : (q : Sequence M) (o : Option M) → Runs q o → (m : M) × (q.current ≡ some m)
  some_of q none r = absurd (r.2 refl)
  some_of q (some m) r = (m, r.1)

  return-InStep :
      (g : Stage) (s : Scaffold M)
      → s.stage ≡ g
      → InStep g s
      → InStep (return_ g s).stage (return_ g s)
  unfolding return_ begin
  return-InStep idle s e h = rw e h
  return-InStep showing s e h = rw e h
  return-InStep hiding s e (r, shut) = returned s.seq.fns refl
    where
      m : M
      m = (some_of s.seq s.message r).0

      c : s.seq.current ≡ some m
      c = (some_of s.seq s.message r).1

      returned :
          (fns : List M) → s.seq.fns ≡ fns → InStep (return_ hiding s).stage (return_ hiding s)
      returned [] f = rw (finish_last s.seq m c f) (refl, refl, f, shut)
      returned (p ∷ ps) f = rw (finish_next s.seq m p ps c f) ((r.0, refl, λ n. cc), refl)

  show-InStep :
      (g : Stage) (m : M) (s : Scaffold M)
      → s.stage ≡ g
      → InStep g s
      → InStep (on_show m s).stage (on_show m s)
  unfolding on_show begin
  show-InStep idle m s e h = rw (post_idle s.seq m h.0 h.2, h.0) ((refl, refl, λ n. cc), refl)
  show-InStep showing m s e h = rw (post_busy s.seq m h.0.0, h.0.0, e) ((refl, h.0.1, h.0.2), h.1)
  show-InStep hiding m s e h = rw (post_busy s.seq m h.0.0, h.0.0, e) ((refl, h.0.1, h.0.2), h.1)

  pop_all-nil : (fns : List M) → pop_all fns ≡ []
  unfolding pop_all
  pop_all-nil [] = refl
  pop_all-nil (p ∷ ps) = pop_all-nil ps

  cleared-InStep :
      (g : Stage) (s : Scaffold M) → InStep g s → InStep g (record s { seq = clear s.seq })
  unfolding clear
  cleared-InStep idle s h = (h.0, h.1, pop_all-nil s.seq.fns, h.3)
  cleared-InStep showing s h = h
  cleared-InStep hiding s h = h

  step-InStep :
      (e : Event M) (s : Scaffold M) → InStep s.stage s → InStep (step e s).stage (step e s)
  unfolding step
  step-InStep (show_message m) s h = show-InStep s.stage m s refl h
  step-InStep dismissed s h = hide-InStep s.stage s refl h
  step-InStep over_3000 s h = hide-InStep s.stage s refl h
  step-InStep over_150 s h = return-InStep s.stage s refl h
  step-InStep clear_current s h = hide-InStep s.stage s refl h
  step-InStep clear_all s h = hide-InStep s.stage _ refl (cleared-InStep s.stage s h)

  run_from-InStep :
      (es : List (Event M)) (s : Scaffold M) → InStep s.stage s → InStep (run es s).stage (run es s)
  unfolding run
  run_from-InStep [] s h = h
  run_from-InStep (e ∷ es) s h = run_from-InStep es (step e s) (step-InStep e s h)

  -- Whatever messages come and however they are dismissed or cleared, the snackbar is open exactly
  -- while the function of a message awaits its end, and then it shows the message whose function the
  -- sequence runs; it is closed for the 150 ms after it, and while the sequence runs nothing.
  pub run-InStep : (es : List (Event M)) → InStep (run es create).stage (run es create)
  unfolding create
  run-InStep es = run_from-InStep es create (refl, refl, refl, refl)

  -- Both times pass, so many times.
  abbrev pub pauses : ℕ → List (Event M)
  pauses zero = []
  pauses (suc n) = over_3000 ∷ over_150 ∷ pauses n
