-- ===== src/Snackbar/Scaffold/Drained.antt =====
-- The end of the messages of the snackbar of web/src/components/Scaffold.tsx.
use mathlib.Core.List.{append-nil, append_assoc}
use web_ssh_tool.Common.{
  ℕ, zero, suc, ◌≡◌, refl, sym, true, false, none, some, List, [], ◌∷◌, ◌++◌, length, arith,
}
use web_ssh_tool.Snackbar.Scaffold.{
  Stage, idle, showing, hiding, Scaffold, Event, over_3000, over_150, create, begin, hide, return_,
  step, run,
}
use web_ssh_tool.Snackbar.Scaffold.Shown.{
  InStep, some_of, finish_last, finish_next, run-InStep, pauses,
}

module _ {M : Type 0} where
  -- Nothing is shown, and the functions of these messages were started after those of the log.
  Ended : List M → Scaffold M → Type 0
  Ended log s = (s.stage ≡ idle) × (s.open_ ≡ false) × (s.seq.log ≡ log)

  idle_stays : (n : ℕ) (s : Scaffold M) → s.stage ≡ idle → run (pauses n) s ≡ s
  unfolding run hide return_
  idle_stays zero s e = refl
  idle_stays (suc n) s e = ground (arith, idle_stays n s)

  -- What both times make of the last message, and of one with another behind it.
  abbrev last_gone : Scaffold M → Scaffold M
  last_gone s = record s {
    seq = record s.seq { current = none; running = false };
    open_ = false;
    stage = idle;
  }

  abbrev next_shown : M → List M → Scaffold M → Scaffold M
  next_shown p ps s = record s {
    seq = record s.seq { fns = ps; current = some p; log = s.seq.log ++ p ∷ [] };
    open_ = true;
    message = some p;
    stage = showing;
  }

  pause_last :
      (m : M) (s : Scaffold M)
      → s.stage ≡ showing
      → s.seq.current ≡ some m
      → s.seq.fns ≡ []
      → step over_150 (step over_3000 s) ≡ last_gone s
  unfolding step hide return_ begin
  pause_last m s e c f = rw (e, finish_last s.seq m c f)

  pause_next :
      (m p : M) (ps : List M) (s : Scaffold M)
      → s.stage ≡ showing
      → s.seq.current ≡ some m
      → s.seq.fns ≡ p ∷ ps
      → step over_150 (step over_3000 s) ≡ next_shown p ps s
  unfolding step hide return_ begin
  pause_next m p ps s e c f = rw (e, finish_next s.seq m p ps c f)

  run_pause :
      (n : ℕ) (s : Scaffold M)
      → run (pauses (suc n)) s ≡ run (pauses n) (step over_150 (step over_3000 s))
  unfolding run
  run_pause n s = refl

  showing-Ended :
      (fns : List M) (m : M) (s : Scaffold M)
      → s.stage ≡ showing
      → s.seq.current ≡ some m
      → s.seq.fns ≡ fns
      → Ended (s.seq.log ++ fns) (run (pauses (suc (length fns))) s)
  unfolding Ended run
  showing-Ended [] m s e c f =
      rw (run_pause 0 s, pause_last m s e c f) (refl, refl, sym (append-nil s.seq.log))
  showing-Ended (p ∷ ps) m s e c f =
      rw
        (
          run_pause (suc (length ps)) s,
          pause_next m p ps s e c f,
          ← append_assoc s.seq.log (p ∷ []) ps,
        )
        (showing-Ended ps p (next_shown p ps s) refl refl refl)

  -- The pause after a message: as if the message were shown, and its time were over.
  abbrev before : Scaffold M → Scaffold M
  before s = record s { open_ = true; stage = showing }

  time_over :
      (s : Scaffold M)
      → s.stage ≡ hiding
      → s.open_ ≡ false
      → step over_3000 s ≡ step over_3000 (before s)
  unfolding step hide
  time_over s e o = ground arith

  hiding-Ended :
      (fns : List M) (m : M) (s : Scaffold M)
      → s.stage ≡ hiding
      → s.open_ ≡ false
      → s.seq.current ≡ some m
      → s.seq.fns ≡ fns
      → Ended (s.seq.log ++ fns) (run (pauses (suc (length fns))) s)
  hiding-Ended fns m s e o c f =
      rw (run_pause (length fns) s, time_over s e o, ← run_pause (length fns) (before s))
        (showing-Ended fns m (before s) refl c f)

  idle-Ended :
      (n : ℕ) (s : Scaffold M)
      → s.stage ≡ idle
      → InStep idle s
      → Ended (s.seq.log ++ s.seq.fns) (run (pauses n) s)
  unfolding Ended
  idle-Ended n s e h = rw (idle_stays n s e, h.2) (e, h.3, sym (append-nil s.seq.log))

  InStep-Ended :
      (g : Stage) (s : Scaffold M)
      → s.stage ≡ g
      → InStep g s
      → Ended (s.seq.log ++ s.seq.fns) (run (pauses (suc (length s.seq.fns))) s)
  InStep-Ended idle s e h = idle-Ended (suc (length s.seq.fns)) s e h
  InStep-Ended showing s e h =
      showing-Ended s.seq.fns (some_of s.seq s.message h.0).0 s e (some_of s.seq s.message h.0).1
        refl
  InStep-Ended hiding s e h =
      hiding-Ended s.seq.fns (some_of s.seq s.message h.0).0 s e h.1 (some_of s.seq s.message h.0).1
        refl

  -- Every message is shown and the snackbar closes in the end: if after any events the two times pass
  -- once for each function that waits and once more, then nothing is shown, and the functions that
  -- waited were started after the earlier ones, in their order.
  pub messages_drain :
      (es : List (Event M))
      → let s : Scaffold M = run es create in
        let r = run (pauses (suc (length s.seq.fns))) s in
        (r.stage ≡ idle) × (r.open_ ≡ false) × (r.seq.log ≡ s.seq.log ++ s.seq.fns)
  unfolding Ended
  messages_drain es =
      let s : Scaffold M = run es create in InStep-Ended s.stage s refl (run-InStep es)
