-- ===== src/Terminal/Commands.antt =====
-- `CommandButton` of web/src/pages/home-page/MultiTerminalView.tsx: the quick commands, which are
-- kept as one text among the settings. JSON is the parameter `Json`.
pub mod Laws
mod Tests
use web_ssh_tool.Common.{
  ℕ, zero, suc, ◌+◌, ◌≡◌, refl, ap, ◌∙◌, sym, Bool, true, false, ◌&&◌, not, Option, none, some,
  List, [], ◌∷◌, ◌++◌, map, if◌then◌else◌, ◌==◌, arith,
}
use web_ssh_tool.Common.Text.{Text}

-- A command with its label.
abbrev pub Command : Type 0
Command = Text × Option Text

-- An element of the parsed list: `null`, on which reading `command` throws, an object whose
-- `command` is a text, or anything else.
pub data Item : Type 0 where
  null_item other_item : Item
  command_item : Command → Item

pub data Parsed : Type 0 where
  array : List Item → Parsed
  no_array : Parsed

-- `JSON.parse`, which may throw, and `JSON.stringify` of a list of commands.
pub record Json : Type 1 where
  pub Raw : Type 0
  pub parse : Raw → Option Parsed
  pub stringify : List Command → Raw

abbrev pub IsFaithful : Json → Type 0
IsFaithful j = (cs : List Command) → j.parse (j.stringify cs) ≡ some (array (map command_item cs))

abbrev cons_command : Command → Option (List Command) → Option (List Command)
cons_command c none = none
cons_command c (some cs) = some (c ∷ cs)

-- `list.filter(v => typeof v.command === 'string')`; `none` if it throws.
pub filter_commands : List Item → Option (List Command)
filter_commands [] = some []
filter_commands (null_item ∷ items) = none
filter_commands (other_item ∷ items) = filter_commands items
filter_commands (command_item c ∷ items) = cons_command c (filter_commands items)

abbrev or_empty : Option (List Command) → List Command
or_empty none = []
or_empty (some cs) = cs

pub of_parsed : Option Parsed → List Command
unfolding filter_commands
of_parsed none = []
of_parsed (some no_array) = []
of_parsed (some (array items)) = or_empty (filter_commands items)

-- The states of the button, and the setting `quickCommands`.
pub record Dialogs (R : Type 0) : Type 0 where
  pub open_ : Bool
  pub open_custom : Bool
  pub command : Text
  pub label : Text
  pub quick_commands : Option R

-- `filter((_, i) => i !== index)`, from the place `n`.
pub without : ℕ → ℕ → List Command → List Command
without index n [] = []
without index n (c ∷ cs) =
    let rest = without index (n + 1) cs in if n == index then rest else c ∷ rest

abbrev pub label_of : Text → Option Text
label_of [] = none
label_of (c ∷ label) = some (c ∷ label)

module _ (j : Json) where
  -- `commands`.
  pub commands : Dialogs j.Raw → List Command
  unfolding of_parsed
  commands d = elim d.quick_commands [ none ↦ [] | some raw ↦ of_parsed (j.parse raw) ]

  -- The button "add".
  pub add : Dialogs j.Raw → Dialogs j.Raw
  unfolding commands
  add d =
      let new_commands = commands d ++ (d.command, label_of d.label) ∷ [] in
      record d { quick_commands = some (j.stringify new_commands); open_custom = false }

  -- The button of a command that removes it.
  pub remove : ℕ → Dialogs j.Raw → Dialogs j.Raw
  unfolding commands
  remove index d = record d { quick_commands = some (j.stringify (without index 0 (commands d))) }

  -- The click on a command, which closes the dialog and pastes the command.
  pub pick : Command → Dialogs j.Raw → Dialogs j.Raw × Text
  pick (command, label) d = (record d { open_ = false }, command)

-- Whether the dialog of the commands is shown.
pub is_shown : {R : Type 0} → Dialogs R → Bool
is_shown d = d.open_ && not d.open_custom
