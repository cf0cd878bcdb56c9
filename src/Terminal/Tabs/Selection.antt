-- ===== src/Terminal/Tabs/Selection.antt =====
-- The ids and the selection of the tabs (`MultiTerminalView`).
use web_ssh_tool.Common.{
  ℕ, ◌+◌, ◌≡◌, Bool, true, not, ◌&&◌, Option, none, some, List, [], ◌∷◌, length,
}
use web_ssh_tool.Terminal.Tabs.{View, has}

pub distinct : List ℕ → Bool
distinct [] = true
distinct (c ∷ cs) = not (has c cs) && distinct cs

-- Nothing is selected only where there is no tab.
abbrev pub Selected : Option ℕ → List ℕ → Type 0
Selected none cs = cs ≡ []
Selected (some c) cs = has c cs ≡ true

-- No id stands twice, the selected controller has a tab, and each controller that was created has a
-- tab or was disposed of.
pub record IsGood (s : View) : Type 0 where
  pub distinct : distinct s.controllers ≡ true
  pub selected : Selected s.controller s.controllers
  pub kept : length s.controllers + length s.disposed ≡ s.created
