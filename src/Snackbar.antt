-- ===== src/Snackbar.antt =====
-- The class `AsyncSequence` of web/src/components/Scaffold.tsx, which shows one message after
-- another, with the operations of the snackbar that use it.
pub mod Order
pub mod Scaffold
use web_ssh_tool.Common.{
  ℕ, Bool, true, false, Option, none, some, List, [], ◌∷◌, ◌++◌, if◌then◌else◌,
}

-- `_running` and `_fns`, and the function that `_run` awaits. `J` is the type of the functions;
-- `log` holds those that were started, in order.
pub record Sequence (J : Type 0) : Type 0 where
  pub running : Bool
  pub fns : List J
  pub current : Option J
  pub log : List J

abbrev pub empty : {J : Type 0} → Sequence J
empty = record { running = false; fns = []; current = none; log = [] }

module _ {J : Type 0} where
  -- The body of the loop of `_run`: the next function is started, or the loop ends.
  next : Sequence J → Sequence J
  next s = elim s.fns [
    | [] ↦ record s { current = none; running = false }
    | p ∷ ps ↦ record s { fns = ps; current = some p; log = s.log ++ p ∷ [] }
  ]

  -- `_run`, up to its first `await`.
  start : Sequence J → Sequence J
  unfolding next
  start s = if s.running then s else next (record s { running = true })

  -- `post` and `postRaw`: what they push differs in what it does with the result.
  pub post : J → Sequence J → Sequence J
  unfolding start
  post p s = start (record s { fns = s.fns ++ p ∷ [] })

  -- The awaited function has returned: those that `post` and `postRaw` push do not reject, for
  -- they catch what the inner function throws.
  pub finish : Sequence J → Sequence J
  unfolding next
  finish s = elim s.current [ none ↦ s | some p ↦ next (record s { current = none }) ]

  -- The loop of `clear`, which pops until nothing is left.
  pub pop_all : List J → List J
  pop_all [] = []
  pop_all (p ∷ ps) = pop_all ps

  pub clear : Sequence J → Sequence J
  unfolding pop_all
  clear s = record s { fns = pop_all s.fns }

pub data Event (J : Type 0) : Type 0 where
  posted : J → Event J
  finished cleared : Event J

module _ {J : Type 0} where
  pub step : Event J → Sequence J → Sequence J
  unfolding post finish clear
  step (posted p) s = post p s
  step finished s = finish s
  step cleared s = clear s

  pub run : List (Event J) → Sequence J → Sequence J
  run [] s = s
  run (e ∷ es) s = run es (step e s)
