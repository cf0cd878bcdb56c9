-- ===== src/Compress/Tests.antt =====
-- Runs of the modelled web/src/workers/Compress.ts on small inputs.
use web_ssh_tool.Common.{ℕ, ◌≡◌, refl, none, List, [], ◌∷◌, arith}
use web_ssh_tool.Common.Keyed
use web_ssh_tool.Compress.{
  start, resolve, Message, settle, on_message, reject_all, request, Event, ask, message, close,
  step, run,
}
use web_ssh_tool.Compress.Pending.{IsFresh, run-IsFresh, answer_reaches_request}
use web_ssh_tool.Compress.Ledger.{close_rejects_all}

start-IsFresh : IsFresh (start {C = ℕ})
start-IsFresh = record { below = tt; distinct = tt }

abbrev answer_to : ℕ → Message ℕ ℕ
answer_to t = record { tag = t; payload = 7; error = none }

abbrev before : List (Event ℕ ℕ ℕ)
before = ask 10 ∷ ask 11 ∷ message (answer_to 0) ∷ []

abbrev between : List (Event ℕ ℕ ℕ)
between = message (answer_to 1) ∷ ask 13 ∷ []

run-before : (run before start).1 ≡ resolve 10 7 ∷ []
unfolding run step on_message request Keyed.set Keyed.get Keyed.delete settle
run-before = refl

answer_reaches_request_example :
    ((on_message (answer_to 2) (run between (request 12 (run before start).0).0).0).1
      ≡ settle 12 (answer_to 2) ∷ [])
    × (Keyed.get 2
          (on_message (answer_to 2) (run between (request 12 (run before start).0).0).0).0.suspend
        ≡ none)
unfolding run step on_message request Keyed.set Keyed.get Keyed.delete
answer_reaches_request_example =
    answer_reaches_request 12 (run before start).0 between (answer_to 2)
      (run-IsFresh before start start-IsFresh) refl (omega arith, (tt, tt))

close_rejects_all_example :
    ((run (close 5 ∷ between) (run before start).0).1 ≡ reject_all 5 (run before start).0.suspend)
    × ((run (close 5 ∷ between) (run before start).0).0.suspend ≡ [])
close_rejects_all_example = close_rejects_all 5 between (run before start).0
