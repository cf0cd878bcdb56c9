-- ===== src/Terminal/Commands/Tests.antt =====
-- A run of the quick commands, with lists of commands for their own texts.
use web_ssh_tool.Common.{◌≡◌, refl, true, none, some, List, [], ◌∷◌, ◌++◌, map}
use web_ssh_tool.Common.Text.{lit}
use web_ssh_tool.Terminal.Commands.{
  Command, Json, IsFaithful, array, command_item, Dialogs, commands, add, remove, is_shown,
}
use web_ssh_tool.Terminal.Commands.Laws.{splice, commands_lem}

abbrev json : Json
json = record {
  Raw = List Command;
  parse = λ cs. some (array (map command_item cs));
  stringify = λ cs. cs;
}

json-IsFaithful : IsFaithful json
json-IsFaithful = λ cs. refl

abbrev dialogs : Dialogs (List Command)
dialogs = record {
  open_ = true;
  open_custom = true;
  command = lit "ls -l";
  label = [];
  quick_commands = some ((lit "top", none) ∷ (lit "df", some (lit "disks")) ∷ []);
}

commands_lem_example :
    (commands json (add json dialogs) ≡ commands json dialogs ++ (lit "ls -l", none) ∷ [])
    × (commands json (remove json 0 dialogs) ≡ splice 0 (commands json dialogs))
    × (is_shown (add json dialogs) ≡ true)
commands_lem_example = commands_lem json json-IsFaithful dialogs 0
