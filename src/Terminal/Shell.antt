-- ===== src/Terminal/Shell.antt =====
-- The data of a shell and its closing (`MultiTerminalView.Controller`).
use web_ssh_tool.Common.{
  ℕ, ◌≡◌, refl, sym, ap, ◌∙◌, Bool, true, false, not, List, [], ◌∷◌, ◌++◌, arith, ◌||◌, any,
}
use mathlib.Core.List.{append_assoc, append-nil}
use web_ssh_tool.Common.Text.{Text}
use web_ssh_tool.Terminal.{
  Iconv, close_detail, other_detail, data_detail, Controller, create, resize, listener,
  invoke_close, Input, typed, resized, ask_close, drop, told, answered, step, run,
}

-- The texts of the events up to the closing, by the server or because the first request failed.
pub received : Iconv → Text → List Input → List Text
received v encoding [] = []
received v encoding (told close_detail ∷ is) = []
received v encoding (told (data_detail d) ∷ is) = v.decode d encoding ∷ received v encoding is
received v encoding (answered true ∷ is) = []
received v encoding (_ ∷ is) = received v encoding is

abbrev pub is_closing : Input → Bool
is_closing (told close_detail) = true
is_closing (answered b) = b
is_closing _ = false

-- The two listeners are there until the controller is closed.
pub record IsSound (c : Controller) : Type 0 where
  pub listening : c.listening ≡ not c.closed
  pub armed : c.armed ≡ not c.closed

module _ (v : Iconv) (encoding : Text) where
  pub step-IsSound : (i : Input) (c : Controller) → IsSound c → IsSound (step v encoding i c).0
  unfolding step listener invoke_close
  step-IsSound (typed t) c s = ground arith
  step-IsSound (resized t) c s = ground arith
  step-IsSound ask_close c s = ground arith
  step-IsSound drop c s = ground arith
  step-IsSound (told close_detail) c s = ground arith
  step-IsSound (told (data_detail d)) c s = ground arith
  step-IsSound (told other_detail) c s = ground arith
  step-IsSound (answered b) c s = ground arith

  -- Nothing is written once it is closed.
  step_closed :
      (i : Input) (c : Controller)
      → IsSound c
      → c.closed ≡ true
      → ((step v encoding i c).0.closed ≡ true) × ((step v encoding i c).0.written ≡ c.written)
  unfolding step listener invoke_close
  step_closed (typed t) c s h = ground arith
  step_closed (resized t) c s h = ground arith
  step_closed ask_close c s h = ground arith
  step_closed drop c s h = ground arith
  step_closed (told d) c s h = ground arith
  step_closed (answered b) c s h = ground arith

  run_closed :
      (is : List Input) (c : Controller)
      → IsSound c
      → c.closed ≡ true
      → ((run v encoding is c).0.closed ≡ true) × ((run v encoding is c).0.written ≡ c.written)
  unfolding run
  run_closed [] c s h = (h, refl)
  run_closed (i ∷ is) c s h =
      let (h', same) = step_closed i c s h in
      let (h'', same') = run_closed is (step v encoding i c).0 (step-IsSound i c s) h' in
      (h'', same' ∙ same)

  closing :
      (i : Input) (is : List Input) (c : Controller)
      → IsSound c
      → (step v encoding i c).0.closed ≡ true
      → (step v encoding i c).0.written ≡ c.written
      → (run v encoding (i ∷ is) c).0.written ≡ c.written ++ []
  unfolding run
  closing i is c s h same =
      (run_closed is (step v encoding i c).0 (step-IsSound i c s) h).1
      ∙ same
      ∙ sym (append-nil c.written)

  -- The text of one event is written behind the others.
  more_written : Text → Controller → Controller
  more_written t c = record c { written = c.written ++ t ∷ [] }

  step_data :
      (d : List ℕ) (c : Controller)
      → IsSound c
      → c.closed ≡ false
      → (step v encoding (told (data_detail d)) c).0 ≡ more_written (v.decode d encoding) c
  unfolding step listener more_written
  step_data d c s h = ground arith

  step_other : (c : Controller) → (step v encoding (told other_detail) c).0 ≡ c
  unfolding step listener
  step_other c = ground arith

  step-drop : (c : Controller) → (step v encoding drop c).0 ≡ c
  unfolding step
  step-drop c = ground arith

  goes_on :
      (i : Input) (is : List Input) (c d : Controller) (t : List Text)
      → (step v encoding i c).0 ≡ d
      → (run v encoding is d).0.written ≡ d.written ++ t
      → (run v encoding (i ∷ is) c).0.written ≡ d.written ++ t
  unfolding run
  goes_on i is c d t e h = ap (λ c'. (run v encoding is c').0.written) e ∙ h

  writes :
      (is : List Input) (c : Controller)
      → IsSound c
      → c.closed ≡ false
      → (run v encoding is c).0.written ≡ c.written ++ received v encoding is
  unfolding received run step more_written listener invoke_close
  writes [] c s h = sym (append-nil c.written)
  writes (typed t ∷ is) c s h = writes is c s h
  writes (resized t ∷ is) c s h = writes is (resize t c).0 (step-IsSound (resized t) c s) h
  writes (ask_close ∷ is) c s h = writes is c s h
  writes (drop ∷ is) c s h = goes_on drop is c c _ (step-drop c) (writes is c s h)
  writes (told close_detail ∷ is) c s h =
      closing (told close_detail) is c s (ground arith) (ground arith)
  writes (told (data_detail d) ∷ is) c s h =
      goes_on (told (data_detail d)) is c (more_written (v.decode d encoding) c) _
        (step_data d c s h)
        (writes is (more_written (v.decode d encoding) c)
          (record { listening = s.listening; armed = s.armed }) h)
      ∙ append_assoc c.written (v.decode d encoding ∷ []) (received v encoding is)
  writes (told other_detail ∷ is) c s h =
      goes_on (told other_detail) is c c _ (step_other c) (writes is c s h)
  writes (answered true ∷ is) c s h = closing (answered true) is c s (ground arith) (ground arith)
  writes (answered false ∷ is) c s h = writes is c s h

  pub step_closes :
      (i : Input) (c : Controller)
      → IsSound c
      → (step v encoding i c).0.closed ≡ (c.closed || is_closing i)
  unfolding step listener invoke_close
  step_closes (typed t) c s = ground arith
  step_closes (resized t) c s = ground arith
  step_closes ask_close c s = ground arith
  step_closes drop c s = ground arith
  step_closes (told close_detail) c s = ground arith
  step_closes (told (data_detail d)) c s = ground arith
  step_closes (told other_detail) c s = ground arith
  step_closes (answered true) c s = ground arith
  step_closes (answered false) c s = ground arith

  pub run_closes :
      (is : List Input) (c : Controller)
      → IsSound c
      → (run v encoding is c).0.closed ≡ (c.closed || any is_closing is)
  unfolding run
  run_closes [] c s = ground arith
  run_closes (i ∷ is) c s =
      let ih = run_closes is (step v encoding i c).0 (step-IsSound i c s) in
      ih ∙ ground (arith, step_closes i c s)

  -- Whatever is typed, resized, asked or answered in between, the terminal is given the decoded
  -- data of the shell, each once and in order, up to the first event that closes it and nothing of
  -- what comes behind; and it is closed exactly if there was such an event: a closing by the server
  -- or a first request that failed.
  pub run-create :
      (id : ℕ) (is : List Input)
      → ((run v encoding is (create id).0).0.written ≡ received v encoding is)
        × ((run v encoding is (create id).0).0.closed ≡ any is_closing is)
  unfolding create
  run-create id is =
      let s : IsSound (create id).0 = record { listening = refl; armed = refl } in
      (writes is (create id).0 s refl, run_closes is (create id).0 s)
