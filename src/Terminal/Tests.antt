-- ===== src/Terminal/Tests.antt =====
-- Runs of a shell and of the tabs.
use web_ssh_tool.Common.{◌+◌, ◌≡◌, false, List, [], ◌∷◌, any}
use web_ssh_tool.Common.Text.{lit}
use web_ssh_tool.Terminal.{
  Iconv, close_detail, data_detail, create, Input, typed, ask_close, told, answered, run,
}
use web_ssh_tool.Terminal.Shell.{received, is_closing, run-create}
use web_ssh_tool.Terminal.Tabs as Tabs
use web_ssh_tool.Terminal.Tabs.{Act, add_tab, remove_tab, select_tab}

-- The encoding of code units by themselves.
abbrev iconv : Iconv
iconv = record { encode = λ text encoding. text; decode = λ d encoding. d }

abbrev inputs : List Input
inputs =
    answered false
    ∷ typed (lit "ls")
    ∷ told (data_detail (lit "a"))
    ∷ told (data_detail (lit "b"))
    ∷ ask_close
    ∷ told close_detail
    ∷ told (data_detail (lit "c"))
    ∷ []

run-create_example :
    ((run iconv (lit "utf-8") inputs (create 5).0).0.written ≡ received iconv (lit "utf-8") inputs)
    × ((run iconv (lit "utf-8") inputs (create 5).0).0.closed ≡ any is_closing inputs)
run-create_example = run-create iconv (lit "utf-8") 5 inputs

abbrev acts : List Act
acts = add_tab (λ i. i + 5) ∷ select_tab 0 ∷ remove_tab 5 ∷ remove_tab 6 ∷ []
