-- ===== src/Explorer/CopyDialog/Destination.antt =====
-- Where the copy dialog copies and moves to (CopyToDialog.tsx).
use web_ssh_tool.Common.{
  ℕ, ◌≡◌, refl, sym, ap, ◌∙◌, Bool, true, false, Option, none, some, List, [], ◌∷◌, All,
  if◌then◌else◌,
}
use web_ssh_tool.Common.Text.{Text}
use web_ssh_tool.Explorer.Types.{Lstat, Entry}
use web_ssh_tool.Explorer.Controller.{
  Controller, ControllerState, path_of, close, Detail, Event, change, closed_event, create, dispose,
  failed, found, listed,
}
use web_ssh_tool.Explorer.Controller as Controller
use web_ssh_tool.Explorer.Actions.{to_copy, to_move, perform, requests}
use web_ssh_tool.Explorer.Targets.{row, shown_directory}
use web_ssh_tool.Explorer.CopyDialog.{
  Dialog, mount, value_of, drive, is_updating, directory_of, Input, show, hide, renew, to_parent,
  home, open_info, open_new, close_info, close_new, enter, click_row, typing, typing_new, ended,
  served, answered, on_row, renewed, step, run, submit_copy, click_move,
}
use web_ssh_tool.Explorer.CopyDialog.Current.{IsCurrent, effect-IsCurrent, drive-IsCurrent, hidden}

if-IsCurrent :
    (b : Bool) (d d' : Dialog) → IsCurrent d → IsCurrent d' → IsCurrent (if b then d else d')
if-IsCurrent true d d' h h' = h
if-IsCurrent false d d' h h' = h'

row_target-IsCurrent :
    (t : Option Text) (d : Dialog)
    → IsCurrent d
    → IsCurrent (elim t [ none ↦ d | some path ↦ drive (Controller.go (some path)) d ])
row_target-IsCurrent none d h = h
row_target-IsCurrent (some path) d h = drive-IsCurrent (Controller.go (some path)) d h

on_row-IsCurrent : (e : Entry) (d : Dialog) → IsCurrent d → IsCurrent (on_row e d)
unfolding on_row
on_row-IsCurrent e d h = row_target-IsCurrent (row [] e).target d h

-- Nothing is written into the field of the destination.
abbrev pub Untyped : Input → Type 0
Untyped (typing value) = ⊥
Untyped _ = Unit

show-IsCurrent :
    (objects : List Lstat) (d : Dialog) → IsCurrent d → IsCurrent (step (show objects) d)
unfolding step
show-IsCurrent objects d h =
    if-IsCurrent d.open_ _ _ (record { shown = h.shown; filled = h.filled })
      (effect-IsCurrent (record d { open_ = true; objects = objects }))

step-IsCurrent : (i : Input) (d : Dialog) → Untyped i → IsCurrent d → IsCurrent (step i d)
unfolding step
step-IsCurrent (show objects) d t h = show-IsCurrent objects d h
step-IsCurrent hide d t h = hidden (record d { open_ = false }) refl
step-IsCurrent (renew id) d t h = effect-IsCurrent (renewed id d)
step-IsCurrent to_parent d t h =
    if-IsCurrent (is_updating d) _ _ h (drive-IsCurrent Controller.go_to_parent d h)
step-IsCurrent home d t h =
    if-IsCurrent (is_updating d) _ _ h (drive-IsCurrent (Controller.go none) d h)
step-IsCurrent open_info d t h =
    if-IsCurrent (is_updating d) _ _ h (record { shown = h.shown; filled = h.filled })
step-IsCurrent open_new d t h =
    if-IsCurrent (is_updating d) _ _ h (record { shown = h.shown; filled = h.filled })
step-IsCurrent close_info d t h = record { shown = h.shown; filled = h.filled }
step-IsCurrent close_new d t h = record { shown = h.shown; filled = h.filled }
step-IsCurrent enter d t h = drive-IsCurrent (Controller.go (some d.value)) d h
step-IsCurrent (click_row e) d t h = if-IsCurrent (is_updating d) _ _ h (on_row-IsCurrent e d h)
step-IsCurrent (typing value) d t h = absurd t
step-IsCurrent (typing_new name) d t h = record { shown = h.shown; filled = h.filled }
step-IsCurrent (ended done) d t h =
    if-IsCurrent done.closes _ _ (hidden (record d { open_ = false }) refl) h
step-IsCurrent (served detail) d t h = drive-IsCurrent (Controller.watched detail) d h
step-IsCurrent (answered b) d t h = drive-IsCurrent (Controller.answered b) d h

run-IsCurrent : (is : List Input) (d : Dialog) → All Untyped is → IsCurrent d → IsCurrent (run is d)
unfolding run
run-IsCurrent [] d t h = h
run-IsCurrent (i ∷ is) d t h = run-IsCurrent is (step i d) t.1 (step-IsCurrent i d t.0 h)

-- The dialog is hidden and shown again.
unfoldable pub reopened : List Lstat → Dialog → Dialog
unfolding step
reopened objects d = step (show objects) (step hide d)

reopened-IsCurrent : (objects : List Lstat) (d : Dialog) → IsCurrent (reopened objects d)
unfolding reopened step
reopened-IsCurrent objects d = show-IsCurrent objects (record d { open_ = false }) (hidden _ refl)

directory_told :
    (c : Option ControllerState) (s : Lstat) (entries : List Entry)
    → shown_directory c ≡ some (s, entries)
    → c ≡ some (Controller.directory s entries)
unfolding shown_directory
directory_told none s entries h = cc
directory_told (some (Controller.error p e)) s entries h = cc
directory_told (some (Controller.file t)) s entries h = cc
directory_told (some (Controller.directory t es)) s entries h = cc

directory_of_lem :
    (d : Dialog) (u : Bool) (c : Option ControllerState)
    → d.state ≡ some (u, c)
    → directory_of d ≡ shown_directory c
unfolding directory_of
directory_of_lem d u c e = rw (directory_of, e) refl

at_path :
    (c : Option ControllerState) (s : Lstat) (entries : List Entry) (p v : Text)
    → c ≡ some (Controller.directory s entries)
    → s.path ≡ some p
    → v ≡ value_of c v
    → v ≡ p
at_path c s entries p v e h f = f ∙ rw (e, value_of, h) refl

-- The directory that an up-to-date dialog lists is that of the controller and of its text field.
listed_current :
    (d : Dialog) (s : Lstat) (entries : List Entry) (p : Text)
    → IsCurrent d
    → d.open_ ≡ true
    → directory_of d ≡ some (s, entries)
    → s.path ≡ some p
    → (d.controller.state ≡ some (Controller.directory s entries)) × (d.value ≡ p)
listed_current d s entries p c o e h =
    let told =
      directory_told d.controller.state s entries
        (sym (directory_of_lem d d.controller.updating d.controller.state (c.shown o)) ∙ e) in
    (told, at_path d.controller.state s entries p d.value told h (c.filled o))

-- In an open dialog whose field was not written into since it was opened, whatever else happened,
-- the directory that is listed is the one that the server told the controller, and both buttons
-- send the objects there.
pub sent_to_shown :
    (id : ℕ) (before since : List Input) (objects : List Lstat) (s : Lstat) (entries : List Entry)
    (p : Text) (is_error : ℕ → Bool)
    → All Untyped since
    → (run since (reopened objects (run before (mount id)))).open_ ≡ true
    → directory_of (run since (reopened objects (run before (mount id)))) ≡ some (s, entries)
    → s.path ≡ some p
    → let d = run since (reopened objects (run before (mount id))) in
      (d.controller.state ≡ some (Controller.directory s entries))
      × ((submit_copy is_error d).asked ≡ requests (to_copy p) d.objects)
      × ((click_move is_error d).asked ≡ requests (to_move p) d.objects)
unfolding submit_copy click_move perform
sent_to_shown id before since objects s entries p is_error t o e h =
    let d = run since (reopened objects (run before (mount id))) in
    let c =
      run-IsCurrent since (reopened objects (run before (mount id))) t
        (reopened-IsCurrent objects (run before (mount id))) in
    let (told, at) = listed_current d s entries p c o e h in
    (told, ap (λ v. requests (to_copy v) d.objects) at, ap (λ v. requests (to_move v) d.objects) at)
