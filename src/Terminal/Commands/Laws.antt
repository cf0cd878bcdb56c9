-- ===== src/Terminal/Commands/Laws.antt =====
-- Reading, adding and removing quick commands (`CommandButton` of MultiTerminalView.tsx).
use web_ssh_tool.Common.{
  ℕ, zero, suc, ◌+◌, ◌<◌, ◌≡◌, refl, ◌∙◌, some, List, [], ◌∷◌, ◌++◌, map, arith,
}
use web_ssh_tool.Terminal.Commands.{
  Command, Json, IsFaithful, command_item, filter_commands, of_parsed, Dialogs, without, label_of,
  commands, add, remove, is_shown,
}

filter-map : (cs : List Command) → filter_commands (map command_item cs) ≡ some cs
unfolding filter_commands
filter-map [] = refl
filter-map (c ∷ cs) = rw (filter-map cs)

-- Removal of the element at a place.
pub splice : ℕ → List Command → List Command
splice i [] = []
splice zero (c ∷ cs) = cs
splice (suc i) (c ∷ cs) = c ∷ splice i cs

without_past : (i n : ℕ) (cs : List Command) → i < n → without i n cs ≡ cs
unfolding without
without_past i n [] h = refl
without_past i n (c ∷ cs) h = ground (arith, without_past i (n + 1) cs)

without_eq : (i n m : ℕ) (cs : List Command) → m ≡ n + i → without m n cs ≡ splice i cs
unfolding without splice
without_eq i n m [] e = refl
without_eq zero n m (c ∷ cs) e = ground (arith, without_past m (n + 1) cs)
without_eq (suc i) n m (c ∷ cs) e = ground (arith, without_eq i (n + 1) m cs)

module _ (j : Json) (f : IsFaithful j) where
  stored : (cs : List Command) → of_parsed (j.parse (j.stringify cs)) ≡ cs
  unfolding of_parsed
  stored cs = rw (f cs, filter-map cs)

  -- Where JSON gives back the commands that it wrote, adding one puts it behind those that there
  -- are, with no label if the label is empty, and removing one by its place takes away that one
  -- and leaves the others in their order; what the setting held before, even if it was no list of
  -- commands, does not matter.
  pub commands_lem :
      (d : Dialogs j.Raw) (index : ℕ)
      → (commands j (add j d) ≡ commands j d ++ (d.command, label_of d.label) ∷ [])
        × (commands j (remove j index d) ≡ splice index (commands j d))
        × (is_shown (add j d) ≡ d.open_)
  unfolding commands add remove is_shown
  commands_lem d index = (
    stored (commands j d ++ (d.command, label_of d.label) ∷ []),
    stored (without index 0 (commands j d)) ∙ without_eq index 0 index (commands j d) (omega arith),
    ground arith,
  )
