-- ===== src/Explorer/Listing/Selecting.antt =====
-- The checkbox of the selecting bar (ToolsBar.tsx) and the clicks on entries (FileListTile.tsx).
use web_ssh_tool.Common.{
  ◌≡◌, refl, Bool, true, false, not, ◌&&◌, ◌||◌, Option, none, some, List, [], ◌∷◌, ◌++◌, map, any,
  keep, length, arith, if◌then◌else◌, ◌==◌,
}
use web_ssh_tool.Common.Text.{eq_text, eq_text_iff}
use web_ssh_tool.Explorer.Types.{Entry}
use web_ssh_tool.Explorer.Listing.{
  View, same_object, Checked, checked, unchecked, check, toggle_all, toggle,
}

length-map : (es : List Entry) → length (map (λ (e : Entry). some e) es) ≡ length es
length-map [] = refl
length-map (e ∷ es) = omega (arith, length-map es)

abbrev pub is_checked : Checked → Bool
is_checked checked = true
is_checked _ = false

-- A click on the checkbox selects every entry, unless all were selected; then it selects none,
-- and the box is unchecked, or still checked if there are no entries.
pub check-toggle_all :
    (v : View)
    → ((toggle_all v).selected ≡ (if is_checked (check v) then [] else map (λ e. some e) v.entries))
      × (check (toggle_all v)
          ≡ (if is_checked (check v) && not (length v.entries == 0) then unchecked else checked))
unfolding check toggle_all
check-toggle_all v = ground (arith, length-map v.entries)

-- The object is selected.
abbrev pub is_chosen : Entry → List (Option Entry) → Bool
is_chosen f os = any (λ o. same_object (some f) o) os

others_chosen :
    (e f : Entry) (os : List (Option Entry))
    → is_chosen f (keep (λ o. not (same_object (some e) o)) os)
      ≡ (not (eq_text e.0 f.0) && is_chosen f os)
others_chosen e f [] = ground arith
others_chosen e f (none ∷ os) = ground (arith, others_chosen e f os)
others_chosen e f (some g ∷ os) =
    ground
      (arith, others_chosen e f os, eq_text_iff e.0 f.0, eq_text_iff e.0 g.0, eq_text_iff f.0 g.0)

chosen_pushed :
    (e f : Entry) (os : List (Option Entry))
    → is_chosen f (os ++ some e ∷ []) ≡ (is_chosen f os || eq_text f.0 e.0)
chosen_pushed e f [] = ground arith
chosen_pushed e f (o ∷ os) = ground (arith, chosen_pushed e f os)

same_chosen : (e f : Entry) (os : List (Option Entry)) → e.0 ≡ f.0 → is_chosen e os ≡ is_chosen f os
same_chosen e f os h = rw h refl

-- A click on an entry while selecting changes whether this entry is selected, and no other.
pub is_chosen-toggle :
    (e f : Entry) (v : View)
    → is_chosen f (toggle e v).selected
      ≡ (if eq_text e.0 f.0 then not (is_chosen f v.selected) else is_chosen f v.selected)
unfolding toggle
is_chosen-toggle e f v = ground (
  arith,
  others_chosen e f v.selected,
  chosen_pushed e f v.selected,
  same_chosen e f v.selected,
  eq_text_iff e.0 f.0,
  eq_text_iff f.0 e.0,
)
