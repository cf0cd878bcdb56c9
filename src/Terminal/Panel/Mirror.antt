-- ===== src/Terminal/Panel/Mirror.antt =====
-- The panel of MultiTerminalView.tsx keeps up with its controller.
use web_ssh_tool.Common.{ℕ, ◌≡◌, refl, ap, ◌∙◌, true, false, ◌||◌, List, [], ◌∷◌, any, arith}
use web_ssh_tool.Common.Text.{Text}
use web_ssh_tool.Terminal.{
  Iconv, Controller, Input, typed, resized, ask_close, drop, told, answered, close_detail,
  data_detail, other_detail, create, step, run, listener, invoke_close,
}
use web_ssh_tool.Terminal.Shell.{IsSound, step-IsSound, is_closing, run-create, run_closes}
use web_ssh_tool.Terminal.Panel.{
  Panel, render, effect, on_close, on_resize, notify, watch, Button, drop_text, run_command,
  clear_all, remove, press,
}

-- The panel shows what the controller is: its closing, and its size while it is open.
pub record Follows (c : Controller) (p : Panel) : Type 0 where
  pub same_closed : p.closed ≡ c.closed
  pub same_size : c.closed ≡ false → p.size ≡ c.size
  pub listens : c.closed ≡ false → (p.listening ≡ true) × (p.hinting ≡ true)

effect-Follows : (c : Controller) → Follows c (effect c (render c))
unfolding effect render
effect-Follows c = record {
  same_closed = ground arith;
  same_size = λ h. ground arith;
  listens = λ h. (ground arith, ground arith);
}

module _ (v : Iconv) (encoding : Text) where
  notify-Follows :
      (i : Input) (c : Controller) (p : Panel)
      → IsSound c
      → Follows c p
      → Follows (step v encoding i c).0 (notify v encoding i c p)
  unfolding step notify on_close on_resize listener invoke_close
  notify-Follows (typed t) c p s f = f
  notify-Follows (resized t) c p s f = record {
    same_closed = ground (arith, f.same_closed);
    same_size = λ h. ground (arith, f.same_size);
    listens = λ h. (ground (arith, f.listens), ground (arith, f.listens));
  }
  notify-Follows ask_close c p s f = f
  notify-Follows drop c p s f = record {
    same_closed = ground (arith, f.same_closed);
    same_size = λ h. ground (arith, f.same_size);
    listens = λ h. (ground (arith, f.listens), ground (arith, f.listens));
  }
  notify-Follows (told close_detail) c p s f = record {
    same_closed = ground (arith, f.same_closed);
    same_size = λ h. ground (arith, f.same_size);
    listens = λ h. (ground (arith, f.listens), ground (arith, f.listens));
  }
  notify-Follows (told (data_detail d)) c p s f = record {
    same_closed = ground (arith, f.same_closed);
    same_size = λ h. ground (arith, f.same_size);
    listens = λ h. (ground (arith, f.listens), ground (arith, f.listens));
  }
  notify-Follows (told other_detail) c p s f = record {
    same_closed = ground (arith, f.same_closed);
    same_size = λ h. ground (arith, f.same_size);
    listens = λ h. (ground (arith, f.listens), ground (arith, f.listens));
  }
  notify-Follows (answered b) c p s f = record {
    same_closed = ground (arith, f.same_closed);
    same_size = λ h. ground (arith, f.same_size);
    listens = λ h. (ground (arith, f.listens), ground (arith, f.listens));
  }

  watch-Follows :
      (is : List Input) (c : Controller) (p : Panel)
      → IsSound c
      → Follows c p
      → Follows (run v encoding is c).0 (watch v encoding is c p)
  unfolding run watch
  watch-Follows [] c p s f = f
  watch-Follows (i ∷ is) c p s f =
      watch-Follows is (step v encoding i c).0 (notify v encoding i c p)
        (step-IsSound v encoding i c s) (notify-Follows i c p s f)

  run-IsSound : (is : List Input) (c : Controller) → IsSound c → IsSound (run v encoding is c).0
  unfolding run
  run-IsSound [] c s = s
  run-IsSound (i ∷ is) c s = run-IsSound is (step v encoding i c).0 (step-IsSound v encoding i c s)

  create-IsSound : (id : ℕ) → IsSound (create id).0
  unfolding create
  create-IsSound id = record { listening = refl; armed = refl }

  -- The controller of a new shell after the inputs.
  abbrev pub after : ℕ → List Input → Controller
  after id is = (run v encoding is (create id).0).0

  press_closed : (b : Button) (p : Panel) → p.closed ≡ true → (press b p).0 ≡ []
  unfolding press
  press_closed (drop_text t) p h = rw h
  press_closed (run_command t) p h = rw h
  press_closed clear_all p h = rw h
  press_closed remove p h = refl

  -- A panel whose effects run with its first rendering, at any moment in the life of a shell, says
  -- that the shell is closed exactly if an event has closed it, before the rendering or since then;
  -- from there no button has the terminal do anything. While the shell is open the panel shows the
  -- size that it has.
  pub panel_follows :
      (id : ℕ) (before since : List Input) (b : Button)
      → let c = after id before in
        let p = watch v encoding since c (effect c (render c)) in
        (p.closed ≡ (any is_closing before || any is_closing since))
        × ((any is_closing before || any is_closing since) ≡ true → (press b p).0 ≡ [])
        × ((any is_closing before || any is_closing since) ≡ false
            → p.size ≡ (run v encoding since c).0.size)
  panel_follows id before since b =
      let c = after id before in
      let s = run-IsSound before (create id).0 (create-IsSound id) in
      let f = watch-Follows since c (effect c (render c)) s (effect-Follows c) in
      let e =
        run_closes v encoding since c s
        ∙ ap (λ x. x || any is_closing since) (run-create v encoding id before).1 in
      (
        f.same_closed ∙ e,
        λ h.
            press_closed b (watch v encoding since c (effect c (render c))) (f.same_closed ∙ e ∙ h),
        λ h. f.same_size (e ∙ h),
      )
