-- ===== src/Settings/Tests.antt =====
-- A run of the settings.
use web_ssh_tool.Common.{◌≡◌, none, some}
use web_ssh_tool.Common.Text.{lit}
use web_ssh_tool.Settings.{Storage, context}
use web_ssh_tool.Settings.Storing.{dark_change, apply, replaced, context-apply}

abbrev storage : Storage
storage k = none

context-apply_example :
    context (apply (dark_change (some (lit "dark"))) storage)
    ≡ replaced (dark_change (some (lit "dark"))) (context storage)
context-apply_example = context-apply (dark_change (some (lit "dark"))) storage
