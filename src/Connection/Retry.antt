-- ===== src/Connection/Retry.antt =====
-- The sockets and the retries of the class `Service` of web/src/App.tsx.
use web_ssh_tool.Common.{
  ℕ, ◌+◌, ◌≤◌, ◌<◌, ◌≡◌, ◌≢◌, refl, Bool, true, false, Option, none, some, List, [], ◌∷◌, arith,
  if◌then◌else◌, ◌∙◌, ltb,
}
use web_ssh_tool.Connection.{
  Ready, connecting, open_, closed, Service, create, Event, opened, failed, ended, delay_over,
  unmounted, is_enabled, step, run,
}

abbrev is_live : Ready → Bool
is_live closed = false
is_live _ = true

abbrev pub IdBelow : Option ℕ → ℕ → Type 0
IdBelow none n = Unit
IdBelow (some i) n = i < n

-- A mounted service has a socket that is not closed, or else it waits to make one and shows no
-- server; a shown id was handed out; and a service that waits has lost its connection.
pub record IsAlive (s : Service) : Type 0 where
  pub waits :
      s.mounted ≡ true
      → s.delayed ≡ true
      → (s.socket ≡ closed) × (s.server ≡ none) × (s.may_be_lost ≡ true)
  pub goes_on : s.mounted ≡ true → s.delayed ≡ false → s.socket ≢ closed
  pub shown : IdBelow s.server s.next_id

-- How many openings, and how many retries with no delay, there are in a run.
abbrev pub bit : Bool → ℕ
bit true = 1
bit false = 0

abbrev pub is_opening : Event → Service → Bool
is_opening opened s = is_enabled opened s
is_opening _ s = false

abbrev pub is_quick_retry : Event → Service → Bool
is_quick_retry ended s = if is_enabled ended s then ltb s.sockets (step ended s).sockets else false
is_quick_retry _ s = false

abbrev pub openings : List Event → Service → ℕ
openings [] s = 0
openings (e ∷ es) s = bit (is_opening e s) + openings es (step e s)

abbrev pub quick_retries : List Event → Service → ℕ
quick_retries [] s = 0
quick_retries (e ∷ es) s = bit (is_quick_retry e s) + quick_retries es (step e s)

credit : Service → ℕ
credit s = if s.may_be_lost then 0 else 1

step-credit :
    (e : Event) (s : Service)
    → bit (is_quick_retry e s) + credit (step e s) ≤ bit (is_opening e s) + credit s
unfolding step credit
step-credit opened s = ground arith
step-credit failed s = ground arith
step-credit ended s = ground arith
step-credit delay_over s = ground arith
step-credit unmounted s = ground arith

run_credit : (es : List Event) (s : Service) → quick_retries es s ≤ openings es s + credit s
run_credit [] s = omega arith
run_credit (e ∷ es) s = omega (arith, run_credit es (step e s), step-credit e s)

-- A service retries without its delay at most once more than connections have opened: after one
-- quick retry, the next comes only after a socket that opened.
pub quick_retries-le-openings :
    (n : ℕ) (es : List Event) → quick_retries es (create n) ≤ openings es (create n) + 1
unfolding create credit
quick_retries-le-openings n es = run_credit es (create n)

step_unmounted :
    (e : Event) (s : Service)
    → s.mounted ≡ false
    → ((step e s).mounted ≡ false) × ((step e s).sockets ≡ s.sockets)
unfolding step
step_unmounted opened s h = ground arith
step_unmounted failed s h = ground arith
step_unmounted ended s h = ground arith
step_unmounted delay_over s h = ground arith
step_unmounted unmounted s h = ground arith

run_unmounted : (es : List Event) (s : Service) → s.mounted ≡ false → (run es s).sockets ≡ s.sockets
unfolding run
run_unmounted [] s h = refl
run_unmounted (e ∷ es) s h =
    let (gone, same) = step_unmounted e s h in run_unmounted es (step e s) gone ∙ same

-- Unmounting closes a socket that connects or is open, and from then on no socket is made, not
-- even by a delay that was running.
pub unmounted_makes_no_socket :
    (s : Service) (es : List Event)
    → s.mounted ≡ true
    → ((run (unmounted ∷ es) s).sockets ≡ s.sockets)
      × ((step unmounted s).socket ≢ connecting)
      × ((step unmounted s).socket ≢ open_)
unfolding step run
unmounted_makes_no_socket s es h =
    (run_unmounted es (step unmounted s) (ground arith) ∙ ground arith, ground arith, ground arith)
