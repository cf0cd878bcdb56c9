-- ===== src/Explorer/Dialogs.antt =====
-- The dialogs that ask the server for one change: RenameDialog of InformationDialog.tsx, the two of
-- NewDialog.tsx, the new directory of CopyToDialog.tsx and FileMoveDialog.tsx, all in
-- web/src/pages/home-page/file-explorer/directory-preview.
pub mod Reports
mod Tests
use web_ssh_tool.Common.{Bool, true, false, Option, none, some, List, [], ◌∷◌}
use web_ssh_tool.Common.Text.{Text}

-- A path and a name stand for `[path, name]`.
pub data Request : Type 0 where
  exists_ mkdir : Text → Text → Request
  rename cp : Text → Text → Text → Request
  write_file : Text → Text → Text → Request

-- `Rest.isError`, or the result, which is looked at for `fs.exists` alone.
pub data Answer : Type 0 where
  refused : Text → Answer
  accepted : Bool → Answer

pub data Message : Type 0 where
  unsupported_name empty_name missing_parent rename_succeed : Message
  error_text : Text → Message
  already_exists created : Text → Text → Message
  move_failed copy_failed : Text → Message
  move_succeed copy_succeed : Text → Message

-- What a handler asked, the messages that it showed, and whether it closed the dialog.
pub record Outcome : Type 0 where
  pub asked : List Request
  pub messages : List Message
  pub closed : Bool

-- It gave up with a message.
abbrev gave_up : List Request → Message → Outcome
gave_up rs m = record { asked = rs; messages = m ∷ []; closed = false }

-- It closed the dialog, with a message.
abbrev finished : List Request → Message → Outcome
finished rs m = record { asked = rs; messages = m ∷ []; closed = true }

module _ (answer : Request → Answer) where
  -- The last request of a handler.
  last_request : List Request → Request → Message → Outcome
  last_request before r success = elim (answer r) [
    | refused e ↦ gave_up (r ∷ before) (error_text e)
    | accepted b ↦ finished (r ∷ before) success
  ]

  -- `onLongPress` of "overwrite".
  pub overwrite : Option Text → Text → Text → Outcome
  unfolding last_request
  overwrite none dir_path name = gave_up [] unsupported_name
  overwrite (some path) dir_path [] = gave_up [] empty_name
  overwrite (some path) dir_path (c ∷ name) =
      last_request [] (rename path dir_path (c ∷ name)) rename_succeed

  -- `onSubmit` of the rename form; requests are listed the newest first.
  pub submit_rename : Option Text → Text → Text → Outcome
  unfolding last_request
  submit_rename none dir_path name = gave_up [] unsupported_name
  submit_rename (some path) dir_path [] = gave_up [] empty_name
  submit_rename (some path) dir_path (c ∷ name) =
      let asked = exists_ dir_path (c ∷ name) in
      elim (answer asked) [
        | refused e ↦ gave_up (asked ∷ []) (error_text e)
        | accepted true ↦ gave_up (asked ∷ []) (already_exists dir_path (c ∷ name))
        | accepted false ↦
            last_request (asked ∷ []) (rename path dir_path (c ∷ name)) rename_succeed
      ]

  pub submit_new_file : Text → Text → Text → Outcome
  unfolding last_request
  submit_new_file path [] content = gave_up [] empty_name
  submit_new_file path (c ∷ name) content =
      last_request [] (write_file path (c ∷ name) content) (created path (c ∷ name))

  pub submit_new_directory : Text → Text → Outcome
  unfolding last_request
  submit_new_directory path [] = gave_up [] empty_name
  submit_new_directory path (c ∷ name) =
      last_request [] (mkdir path (c ∷ name)) (created path (c ∷ name))

  -- The button "create" of the copy dialog, by the path of the directory that it shows.
  pub create_directory : Option Text → Text → Outcome
  unfolding submit_new_directory
  create_directory none name = gave_up [] missing_parent
  create_directory (some path) name = submit_new_directory path name

  -- "move" and "copy" of a dropped file: the dialog is closed first.
  pub move_file : Text → Text → Text → Outcome
  move_file path target filename =
      let r = rename path target filename in
      elim (answer r) [
        | refused e ↦ finished (r ∷ []) (move_failed path)
        | accepted b ↦ finished (r ∷ []) (move_succeed target)
      ]

  pub copy_file : Text → Text → Text → Outcome
  copy_file path target filename =
      let r = cp path target filename in
      elim (answer r) [
        | refused e ↦ finished (r ∷ []) (copy_failed path)
        | accepted b ↦ finished (r ∷ []) (copy_succeed target)
      ]
