-- ===== src/Explorer/Targets/Conflicts.antt =====
-- Names that are there already, in the copy dialog (CopyToDialog.tsx).
use web_ssh_tool.Common.{
  ◌≡◌, refl, ◌∙◌, Bool, false, not, ◌||◌, none, some, List, [], ◌∷◌, any, keep, All, length, arith,
  if◌then◌else◌, ◌==◌, Option-cases, inl, inr,
}
use web_ssh_tool.Common.Text.{Text, eq_text, eq_text_iff}
use web_ssh_tool.Explorer.Types.{Lstat, Entry}
use web_ssh_tool.Explorer.Targets.{
  base_names, inherited, is_property, is_repeat, repeats, total, conflict, label, row,
}

-- No base name is one that every object of JavaScript has.
abbrev pub IsOwn : Lstat → Type 0
IsOwn s = elim s.basename [ none ↦ Unit | some name ↦ any (λ i. eq_text i name) inherited ≡ false ]

any-false : {A : Type 0} (xs : List A) → any (λ x. false) xs ≡ false
any-false [] = refl
any-false (x ∷ xs) = any-false xs

any_or :
    {A : Type 0} (p q : A → Bool) (xs : List A) → any (λ x. p x || q x) xs ≡ (any p xs || any q xs)
any_or p q [] = refl
any_or p q (x ∷ xs) = ground (arith, any_or p q xs)

eq_text_comm : (a b : Text) → eq_text a b ≡ eq_text b a
eq_text_comm a b = ground (arith, eq_text_iff a b, eq_text_iff b a)

any_same :
    (name : Text) (entries : List Entry)
    → any (λ e. eq_text name e.0) entries ≡ any (λ e. eq_text e.0 name) entries
any_same name [] = refl
any_same name (e ∷ entries) = ground (arith, any_same name entries, eq_text_comm name e.0)

length-nil : {A : Type 0} (p : A → Bool) (xs : List A) → (length (keep p xs) == 0) ≡ not (any p xs)
length-nil p [] = refl
length-nil p (x ∷ xs) = ground (arith, length-nil p xs)

marked :
    (name : Text) (s : Lstat) (entries : List Entry) (objects : List Lstat)
    → any (λ i. eq_text i name) inherited ≡ false
    → any (λ e. (row (base_names objects) e).selected) entries
      ≡ any (λ o. is_repeat (some (s, entries)) o) objects
    → (any (λ e. eq_text name e.0) entries
        || any (λ e. (row (base_names objects) e).selected) entries)
      ≡ (is_property entries name || any (λ o. is_repeat (some (s, entries)) o) objects)
unfolding is_property
marked name s entries objects own rest = rw (rest, any_same name entries, own) (ground arith)

marks :
    (s : Lstat) (entries : List Entry) (objects : List Lstat)
    → All IsOwn objects
    → any (λ e. (row (base_names objects) e).selected) entries
      ≡ any (λ o. is_repeat (some (s, entries)) o) objects
unfolding row base_names is_property
marks s entries [] h = any-false entries
marks s entries (o ∷ objects) (h, hs) = elim (Option-cases o.basename) [
  | inl e ↦ rw e (marks s entries objects hs)
  | inr (name, e) ↦
      let own : any (λ i. eq_text i name) inherited ≡ false = rw e at h in
      let rest = marks s entries objects hs in
      rw e (
        any_or (λ x. eq_text name x.0) (λ x. (row (base_names objects) x).selected) entries
        ∙ marked name s entries objects own rest)
]

-- If no object has a base name that every object of JavaScript has, then the button tells of a
-- conflict exactly if a row is marked, that is if some entry is called as an object that is to be
-- copied; otherwise it tells how many objects there are.
pub label-rows :
    (s : Lstat) (entries : List Entry) (objects : List Lstat)
    → All IsOwn objects
    → label (some (s, entries)) objects ≡ (
        if any (λ e. (row (base_names objects) e).selected) entries
        then conflict
        else total (length objects))
unfolding label repeats
label-rows s entries objects h =
    rw (length-nil (is_repeat (some (s, entries))) objects, marks s entries objects h)
      (ground arith)
