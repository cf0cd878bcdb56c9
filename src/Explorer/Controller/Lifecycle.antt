-- ===== src/Explorer/Controller/Lifecycle.antt =====
-- The closing of `FileExplorer.Controller` (file-explorer/Common.tsx).
use web_ssh_tool.Common.{ℕ, ◌≡◌, refl, true, not, List, [], ◌∷◌, ◌∙◌, arith}
use web_ssh_tool.Explorer.Controller.{
  Controller, Detail, close, create, dispose, on_watch, Input, go, go_to_parent, ask_close, drop,
  watched, answered, step, run,
}

-- The two listeners are there until the controller is closed.
pub record IsSound (c : Controller) : Type 0 where
  pub listening : c.listening ≡ not c.closed
  pub armed : c.armed ≡ not c.closed

pub create-IsSound : (id : ℕ) → IsSound (create id).0
unfolding create
create-IsSound id = record { listening = refl; armed = refl }

pub step-IsSound : (i : Input) (c : Controller) → IsSound c → IsSound (step i c).0
unfolding step
step-IsSound (go p) c s = ground arith
step-IsSound go_to_parent c s = ground arith
step-IsSound ask_close c s = ground arith
step-IsSound drop c s = ground arith
step-IsSound (watched close) c s = ground arith
step-IsSound (watched d) c s = ground arith
step-IsSound (answered b) c s = ground arith

run-IsSound : (is : List Input) (c : Controller) → IsSound c → IsSound (run is c)
unfolding run
run-IsSound [] c s = s
run-IsSound (i ∷ is) c s = run-IsSound is (step i c).0 (step-IsSound i c s)

step_closed :
    (i : Input) (c : Controller)
    → IsSound c
    → c.closed ≡ true
    → ((step i c).0.closed ≡ true) × ((step i c).0.state ≡ c.state)
unfolding step
step_closed (watched close) c s h = ground arith
step_closed (watched d) c s h = ground arith
step_closed (answered b) c s h = ground arith
step_closed drop c s h = ground arith
step_closed (go p) c s h = ground arith
step_closed go_to_parent c s h = ground arith
step_closed ask_close c s h = ground arith

run_closed :
    (is : List Input) (c : Controller)
    → IsSound c
    → c.closed ≡ true
    → ((run is c).closed ≡ true) × ((run is c).state ≡ c.state)
unfolding run
run_closed [] c s h = (h, refl)
run_closed (i ∷ is) c s h =
    let (shut, same) = step_closed i c s h in
    let (shut', same') = run_closed is (step i c).0 (step-IsSound i c s) shut in
    (shut', same' ∙ same)

closed-quiet :
    (d : Detail) (c : Controller)
    → IsSound c
    → c.closed ≡ true
    → (on_watch d c ≡ (c, [], [])) × (dispose c ≡ (c, [], []))
unfolding on_watch dispose
closed-quiet d c s h = ground arith

-- Once closed, a controller that came from `create` by any inputs stays closed and shows the state
-- that it showed, whatever the server still sends; events of the watch then do nothing, and
-- disposing of it sends no request.
pub closed_is_final :
    (id : ℕ) (before after : List Input) (d : Detail)
    → (run before (create id).0).closed ≡ true
    → let c = run before (create id).0 in
      ((run after c).closed ≡ true)
      × ((run after c).state ≡ c.state)
      × (on_watch d (run after c) ≡ (run after c, [], []))
      × (dispose (run after c) ≡ (run after c, [], []))
closed_is_final id before after d h =
    let s = run-IsSound before (create id).0 (create-IsSound id) in
    let (shut, same) = run_closed after (run before (create id).0) s h in
    let s' = run-IsSound after (run before (create id).0) s in
    let (quiet, idle) = closed-quiet d (run after (run before (create id).0)) s' shut in
    (shut, same, quiet, idle)
