-- ===== src/Explorer/Dialogs/Reports.antt =====
-- Renaming, and the messages of the forms, in the dialogs of directory-preview.
use web_ssh_tool.Common.{
  ◌≡◌, ◌≢◌, refl, ◌↔◌, ◌⊎◌, inl, Bool, true, false, Option, none, some, List, [], ◌∷◌, arith,
  length, any,
}
use web_ssh_tool.Common.Text.{Text}
use web_ssh_tool.Explorer.Dialogs.{
  Request, exists_, rename, Answer, refused, accepted, Message, rename_succeed, created,
  move_succeed, copy_succeed, Outcome, last_request, overwrite, submit_rename, submit_new_file,
  submit_new_directory, create_directory, move_file, copy_file,
}

abbrev pub is_rename : Request → Bool
is_rename (rename path d n) = true
is_rename _ = false

abbrev pub is_accepted : Answer → Bool
is_accepted (accepted b) = true
is_accepted (refused e) = false

module _ (answer : Request → Answer) where
  -- The form "rename" asks for the renaming exactly if the name is not empty and the server says
  -- that nothing has it; "overwrite" asks for it for every name that is not empty; and both close
  -- exactly if they asked for it and the server accepted.
  pub rename_lem :
      (path dir_path name : Text)
      → ((any is_rename (submit_rename answer (some path) dir_path name).asked ≡ true)
          ↔ ((name ≢ []) × (answer (exists_ dir_path name) ≡ accepted false)))
        × ((any is_rename (overwrite answer (some path) dir_path name).asked ≡ true) ↔ (name ≢ []))
        × (((submit_rename answer (some path) dir_path name).closed ≡ true) ↔ (
            (name ≢ [])
            × (answer (exists_ dir_path name) ≡ accepted false)
            × (is_accepted (answer (rename path dir_path name)) ≡ true)))
        × (((overwrite answer (some path) dir_path name).closed ≡ true)
            ↔ ((name ≢ []) × (is_accepted (answer (rename path dir_path name)) ≡ true)))
  unfolding submit_rename overwrite last_request
  rename_lem path dir_path [] = ground arith
  rename_lem path dir_path (c ∷ name) = ground arith

-- All the forms of these dialogs.
pub data Form : Type 0 where
  rename_form overwrite_form : Option Text → Text → Text → Form
  new_file_form : Text → Text → Text → Form
  new_directory_form : Text → Text → Form
  create_form : Option Text → Text → Form
  move_form copy_form : Text → Text → Text → Form

abbrev pub submit : (Request → Answer) → Form → Outcome
submit answer (rename_form path d n) = submit_rename answer path d n
submit answer (overwrite_form path d n) = overwrite answer path d n
submit answer (new_file_form path n content) = submit_new_file answer path n content
submit answer (new_directory_form path n) = submit_new_directory answer path n
submit answer (create_form path n) = create_directory answer path n
submit answer (move_form path d n) = move_file answer path d n
submit answer (copy_form path d n) = copy_file answer path d n

abbrev pub is_success : Message → Bool
is_success rename_succeed = true
is_success (created d n) = true
is_success (move_succeed d) = true
is_success (copy_succeed d) = true
is_success _ = false

-- The newest request, if there is one, changes the file system and was accepted.
abbrev pub changed : (Request → Answer) → List Request → Bool
changed answer [] = false
changed answer (exists_ d n ∷ rs) = false
changed answer (r ∷ rs) = is_accepted (answer r)

-- Whatever the server answers, a form shows exactly one message, which tells of success exactly if
-- the change was asked for and accepted, and it is not left open then.
pub submit_tells :
    (answer : Request → Answer) (f : Form)
    → (length (submit answer f).messages ≡ 1)
      × (any is_success (submit answer f).messages ≡ changed answer (submit answer f).asked)
      × ((any is_success (submit answer f).messages ≡ false) ⊎ ((submit answer f).closed ≡ true))
unfolding submit_rename overwrite last_request submit_new_file submit_new_directory create_directory
    move_file copy_file
submit_tells answer (rename_form none d n) = (refl, refl, inl refl)
submit_tells answer (rename_form (some p) d []) = (refl, refl, inl refl)
submit_tells answer (rename_form (some p) d (c ∷ n)) = ground arith
submit_tells answer (overwrite_form none d n) = (refl, refl, inl refl)
submit_tells answer (overwrite_form (some p) d []) = (refl, refl, inl refl)
submit_tells answer (overwrite_form (some p) d (c ∷ n)) = ground arith
submit_tells answer (new_file_form p [] t) = (refl, refl, inl refl)
submit_tells answer (new_file_form p (c ∷ n) t) = ground arith
submit_tells answer (new_directory_form p []) = (refl, refl, inl refl)
submit_tells answer (new_directory_form p (c ∷ n)) = ground arith
submit_tells answer (create_form none n) = (refl, refl, inl refl)
submit_tells answer (create_form (some p) []) = (refl, refl, inl refl)
submit_tells answer (create_form (some p) (c ∷ n)) = ground arith
submit_tells answer (move_form p d n) = ground arith
submit_tells answer (copy_form p d n) = ground arith
