-- ===== src/Components/Animated/Tests.antt =====
-- A list of web/src/components/AnimatedList.tsx whose properties change.
use web_ssh_tool.Common.{
  ℕ, ◌≡◌, ◌≢◌, refl, true, false, any, none, some, List, [], ◌∷◌, ◌++◌, map, arith, ◌==◌,
}
use web_ssh_tool.Common.Keyed
use web_ssh_tool.Components.Animated.{
  entering, entered, exit, put_all, rendered, fire, mount_all, renewed, mount_wrap, updated, has,
  to_entered, to_exit, Event, update, timeout, from_entries, create, run,
}
use web_ssh_tool.Components.Animated.Rendered.{visible}
use web_ssh_tool.Components.Animated.Shown.{list_refines_map}
use web_ssh_tool.Components.Animated.Settled.{final, animations_end}

abbrev before : List (ℕ × ℕ)
before = (1, 10) ∷ (2, 20) ∷ []

abbrev after : List (ℕ × ℕ)
after = (3, 30) ∷ (2, 21) ∷ []

abbrev events : List (Event ℕ)
events = update after ∷ timeout 3 ∷ update before ∷ update after ∷ []

-- The first child is on its way out, and keeps its place and its node.
children :
    (run events (create before)).children
    ≡ (1, record { node = 10; state = exit; timer = some to_exit; existed = false })
      ∷ (2, record { node = 21; state = entered; timer = none; existed = true })
      ∷ (3, record { node = 30; state = entering; timer = some to_entered; existed = true })
      ∷ []
unfolding run create Keyed.get put_all Keyed.set rendered fire mount_all from_entries renewed
    mount_wrap updated has
children = refl

list_refines_map_example :
    visible (Keyed.get 2 (run events (create before)).children)
    ≡ Keyed.get 2 (from_entries [] after)
list_refines_map_example = list_refines_map before events 2

covered :
    (k : ℕ)
    → Keyed.get k (run events (create before)).children ≢ none
    → any (λ j. j == k) (3 ∷ 1 ∷ 2 ∷ []) ≡ true
unfolding Keyed.get
covered k h = let h' = rw children at h in ground arith

animations_end_example :
    Keyed.get 1 (run (events ++ map timeout (3 ∷ 1 ∷ 2 ∷ [])) (create before)).children
    ≡ final 1 after
animations_end_example = animations_end before events (3 ∷ 1 ∷ 2 ∷ []) covered 1
