-- ===== src/Explorer/Listing/Updates.antt =====
-- The effects of DirectoryPreview.tsx on the dialogs and on the selection.
use web_ssh_tool.Common.{
  ◌≡◌, refl, ◌∙◌, ap, Bool, true, not, ◌&&◌, Option, none, some, List, [], ◌∷◌, any, find, All,
  All-keep, arith, Bool-cases, inl, inr,
}
use web_ssh_tool.Common.Text.{Text, eq_text, eq_text_iff}
use web_ssh_tool.Explorer.Types.{Entry}
use web_ssh_tool.Explorer.Actions.{same_path}
use web_ssh_tool.Explorer.Listing.{
  View, Information, on_path, has_path, entry_of, same_object, to_set, reselected,
  updated_information, on_entries, update,
}

module _ {A : Type 0} (p : A → Bool) where
  find-any : (xs : List A) → any p xs ≡ true → (x : A) × ((find p xs ≡ some x) × (p x ≡ true))
  find-any [] h = absurd (ground arith)
  find-any (x ∷ xs) h = elim (Bool-cases (p x)) [
    | inl e ↦ (x, (ground arith, e))
    | inr e ↦ let (y, (found, ok)) = find-any xs (ground arith) in (y, (ground arith, ok))
  ]

updated_open :
    (entries : List Entry) (i : Information)
    → (updated_information entries i).open_ ≡ (i.open_ && has_path i.stat.path entries)
unfolding updated_information
updated_open entries i = elim (Bool-cases (has_path i.stat.path entries)) [
  | inl e ↦
      let (x, (found, same)) = find-any (λ x. same_path x.1.path i.stat.path) entries e in
      rw (e, found) (ground arith)
  | inr e ↦ rw e (ground arith)
]

entries_dialogs :
    (v : View)
    → ((on_entries v).information.open_
        ≡ (v.information.open_ && has_path v.information.stat.path v.entries))
      × ((on_entries v).file_move.open_ ≡ (
          v.file_move.open_
          && (has_path (some v.file_move.path) v.entries
              && has_path (some v.file_move.target) v.entries)))
unfolding on_entries
entries_dialogs v = (updated_open v.entries v.information, ground arith)

-- With a new listing the information dialog stays open exactly if it was open, the path of the
-- directory is the same and some entry has the path that it shows; the dialog that moves a file
-- exactly if, moreover, entries have both its path and its target, so that one whose target is the
-- parent directory is closed.
pub update-dialogs :
    (path : Option Text) (entries : List Entry) (v : View)
    → ((update path entries v).information.open_ ≡ (
        v.information.open_ && same_path v.path path && has_path v.information.stat.path entries))
      × ((update path entries v).file_move.open_ ≡ (
          v.file_move.open_
          && same_path v.path path
          && (has_path (some v.file_move.path) entries
              && has_path (some v.file_move.target) entries)))
unfolding update on_path
update-dialogs path entries v =
    let next = record v { path = path; entries = entries } in
    ground (arith, entries_dialogs next, entries_dialogs (on_path next))

-- The entry's path tells its base name, which is the name that it is listed under.
pub record IsNamed (name_of : Text → Text) (e : Entry) : Type 0 where
  pub path : Text
  pub at_path : e.1.path ≡ some path
  pub basename : e.1.basename ≡ some (name_of path)
  pub key : e.0 ≡ name_of path

-- The object stands in the listing under its name.
abbrev pub Stands : List Entry → Option Entry → Type 0
Stands entries o = (e : Entry) × ((o ≡ some e) × (entry_of e.0 entries ≡ some e))

-- The object is one with such a name.
abbrev pub Known : (Text → Text) → Option Entry → Type 0
Known name_of none = ⊥
Known name_of (some e) = IsNamed name_of e

module _ (name_of : Text → Text) where
  has_name :
      (p : Text) (entries : List Entry)
      → All (IsNamed name_of) entries
      → has_path (some p) entries ≡ true
      → any (λ e. eq_text e.0 (name_of p)) entries ≡ true
  has_name p [] h k = absurd (ground arith)
  has_name p (e ∷ entries) (n, h) k = elim (Bool-cases (same_path e.1.path (some p))) [
    | inl same ↦
        let q : eq_text n.path p ≡ true = rw n.at_path at same in
        let named : e.0 ≡ name_of p = n.key ∙ ap name_of ((eq_text_iff n.path p).0 q) in
        rw ((eq_text_iff e.0 (name_of p)).1 named) refl
    | inr other ↦ ground (arith, has_name p entries h (ground arith))
  ]

  entry-Stands :
      (name : Text) (entries : List Entry)
      → any (λ e. eq_text e.0 name) entries ≡ true
      → Stands entries (entry_of name entries)
  entry-Stands name entries h =
      let (e, (found, same)) = find-any (λ e. eq_text e.0 name) entries h in
      (e, (found, rw ((eq_text_iff e.0 name).0 same) found))

  reselected-Stands :
      (entries : List Entry) (os : List (Option Entry))
      → All (IsNamed name_of) entries
      → All (Known name_of) os
      → All (Stands entries) (reselected entries os)
  unfolding reselected
  reselected-Stands entries [] h k = tt
  reselected-Stands entries (none ∷ os) h (k, ks) = absurd k
  reselected-Stands entries (some v ∷ os) h (k, ks) =
      elim (Bool-cases (has_path v.1.path entries)) [
        | inl e ↦
            let here = has_name k.path entries h (rw (← k.at_path) e) in
            rw (k.basename, e)
              (entry-Stands (name_of k.path) entries here, reselected-Stands entries os h ks)
        | inr e ↦ rw (k.basename, e) (reselected-Stands entries os h ks)
      ]

  to_set-Stands :
      (entries : List Entry) (os : List (Option Entry))
      → All (Stands entries) os
      → All (Stands entries) (to_set os)
  unfolding to_set
  to_set-Stands entries [] h = tt
  to_set-Stands entries (o ∷ os) (h, hs) = (
    h,
    All-keep (Stands entries) (λ p. not (same_object o p)) (to_set os)
        (to_set-Stands entries os hs),
  )

  -- If paths tell the names that objects are listed under, then after a new listing every selected
  -- object is one of the new listing, under its own name, and none is `undefined`.
  pub update-Stands :
      (path : Option Text) (entries : List Entry) (v : View)
      → All (IsNamed name_of) entries
      → All (Known name_of) v.selected
      → All (Stands entries) (update path entries v).selected
  unfolding update on_path on_entries
  update-Stands path entries v h k = elim (Bool-cases (same_path v.path path)) [
    | inl e ↦ rw e (to_set-Stands entries _ (reselected-Stands entries v.selected h k))
    | inr e ↦
        rw e (to_set-Stands entries (reselected entries []) (reselected-Stands entries [] h tt))
  ]
