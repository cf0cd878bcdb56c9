-- ===== src/Compress/Ledger.antt =====
-- The number of requests of web/src/workers/Compress.ts and of the calls that settle them.
use web_ssh_tool.Common.{ℕ, ◌+◌, ◌≡◌, refl, Bool, true, List, [], ◌∷◌, arith, if◌then◌else◌}
use web_ssh_tool.Common.Keyed
use mathlib.Core.List.{append-nil}
use web_ssh_tool.Compress.{
  Pool, deliver, on_message, reject_all, on_close, request, Event, ask, message, close, step, run,
}

module _ {C D E : Type 0} where
  -- How many requests an event adds, given whether the worker has ended, and how many a list of
  -- events adds.
  abbrev pub admits : Bool → Event C D E → ℕ
  admits ended (ask c) = if ended then 0 else 1
  admits ended (message msg) = 0
  admits ended (close e) = 0

  abbrev pub ends : Bool → Event C D E → Bool
  ends ended (ask c) = ended
  ends ended (message msg) = ended
  ends ended (close e) = true

  abbrev pub accepted : Bool → List (Event C D E) → ℕ
  accepted ended [] = 0
  accepted ended (e ∷ es) = admits ended e + accepted (ends ended e) es

  step_idle :
      (e : Event C D E) (p : Pool C)
      → p.closed ≡ true
      → p.suspend ≡ []
      → ((step e p).1 ≡ []) × ((step e p).0.closed ≡ true) × ((step e p).0.suspend ≡ [])
  unfolding step on_message on_close request deliver Keyed.get reject_all
  step_idle (ask d) p c s = ground arith
  step_idle (message msg) p c s = simp s (refl, c, refl)
  step_idle (close e) p c s = simp s (refl, refl, refl)

  after_close :
      (es : List (Event C D E)) (p : Pool C)
      → p.closed ≡ true
      → p.suspend ≡ []
      → ((run es p).1 ≡ []) × ((run es p).0.suspend ≡ [])
  unfolding run
  after_close [] p c s = (refl, s)
  after_close (e ∷ es) p c s =
      let (quiet, ended, empty) = step_idle e p c s in
      let (later, none_left) = after_close es (step e p).0 ended empty in
      (rw (quiet, later), none_left)

  -- When the worker ends, every waiting request is rejected, in the order of asking, and nothing
  -- that happens later calls anything or leaves a request waiting.
  pub close_rejects_all :
      (e : E) (es : List (Event C D E)) (p : Pool C)
      → ((run (close e ∷ es) p).1 ≡ reject_all e p.suspend)
        × ((run (close e ∷ es) p).0.suspend ≡ [])
  unfolding run step on_close
  close_rejects_all e es p =
      let (quiet, empty) = after_close es (record p { closed = true; suspend = [] }) refl refl in
      (rw (quiet, append-nil), empty)
