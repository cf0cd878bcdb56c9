-- ===== src/Explorer/DropZone/Depth.antt =====
-- The files of a dropped folder and their depth (`uploadItem` of DropZone.tsx).
use web_ssh_tool.Common.{
  ℕ, zero, suc, ◌+◌, ◌≤◌, ◌<◌, ◌≡◌, refl, ap, sym, ◌∙◌, Bool, true, false, List, [], ◌∷◌, ◌++◌,
  ◌&&◌, keep-append, All-append, arith, leb, keep, length, length-append, All,
}
use mathlib.Core.Path.{ap₂}
use native.Mathlib.Decide.{dec_lt}
use web_ssh_tool.Common.Text.{Text}
use web_ssh_tool.Explorer.DropZone.{
  Node, file, folder, Nodes, nil, cons, Op, mkdir, upload, max_depth, upload_item, upload_items,
}

-- The files of an entry with the directories that they belong to, whatever their depth.
mutual
  pub files : List Text → Node → List (Text × List Text)
  files dest (file name) = (name, dest) ∷ []
  files dest (folder name nodes) = files_of (dest ++ name ∷ []) nodes

  pub files_of : List Text → Nodes → List (Text × List Text)
  files_of dest nil = []
  files_of dest (cons x xs) = files dest x ++ files_of dest xs

abbrev pub count : Nodes → ℕ
count nil = 0
count (cons x xs) = suc (count xs)

-- No folder holds more entries than one reading gives.
unfoldable mutual
  pub fits : ℕ → Node → Bool
  fits batch (file name) = true
  fits batch (folder name nodes) = leb (count nodes) batch && fits_all batch nodes

  pub fits_all : ℕ → Nodes → Bool
  fits_all batch nil = true
  fits_all batch (cons x xs) = fits batch x && fits_all batch xs

abbrev pub uploads : List Op → List (Text × List Text)
uploads [] = []
uploads (mkdir d ∷ ops) = uploads ops
uploads (upload name d ∷ ops) = (name, d) ∷ uploads ops

pub uploads-append : (a b : List Op) → uploads (a ++ b) ≡ uploads a ++ uploads b
uploads-append [] b = refl
uploads-append (mkdir d ∷ a) b = uploads-append a b
uploads-append (upload n d ∷ a) b = ap (λ l. (n, d) ∷ l) (uploads-append a b)

-- The place is at most so deep.
abbrev pub shallow : ℕ → Text × List Text → Bool
shallow n f = leb (length f.1) n

-- Every file of an entry lies at its place or below.
mutual
  unfolding files files_of

  files_below :
      (n : ℕ) (dest : List Text) (e : Node)
      → n ≤ length dest
      → All (λ f. n ≤ length f.1) (files dest e)
  files_below n dest (file name) h = (h, tt)
  files_below n dest (folder name nodes) h =
      files_of_below n (dest ++ name ∷ []) nodes (omega (arith, length-append dest (name ∷ [])))

  files_of_below :
      (n : ℕ) (dest : List Text) (es : Nodes)
      → n ≤ length dest
      → All (λ f. n ≤ length f.1) (files_of dest es)
  files_of_below n dest nil h = tt
  files_of_below n dest (cons x xs) h =
      All-append (λ f. n ≤ length f.1) (files dest x) (files_of dest xs) (files_below n dest x h)
        (files_of_below n dest xs h)

keep_none :
    (n : ℕ) (fs : List (Text × List Text))
    → All (λ f. suc n ≤ length f.1) fs
    → keep (shallow n) fs ≡ []
keep_none n [] h = refl
keep_none n (f ∷ fs) h = ground (arith, keep_none n fs h.1, h.0)

goes_in : (depth : ℕ) → depth < 2 → leb max_depth depth ≡ false
goes_in depth h = ground arith

stays_out : (depth : ℕ) → ¬ (depth < 2) → leb max_depth depth ≡ true
stays_out depth h = ground arith

pub both_true : (a b : Bool) → (a && b) ≡ true → (a ≡ true) × (b ≡ true)
both_true a b h = ground arith

module _ (mkdir_fails : List Text → Bool) (batch : ℕ)
    (works : (d : List Text) → mkdir_fails d ≡ false) where
  mutual
    unfolding upload_item upload_items files files_of fits fits_all

    item_lem :
        (dest : List Text) (n depth : ℕ) (e : Node)
        → n + depth ≡ length dest + 2
        → depth ≤ 2
        → fits batch e ≡ true
        → uploads (upload_item mkdir_fails batch dest e depth) ≡ keep (shallow n) (files dest e)
    item_lem dest n depth (file name) h k f = ground arith
    item_lem dest n depth (folder name nodes) h k f = elim (dec_lt depth 2) [
      | yes p ↦
          let (wide, all_fit) = both_true (leb (count nodes) batch) (fits_all batch nodes) f in
          rw (goes_in depth p, works (dest ++ name ∷ []))
            (items_lem batch (dest ++ name ∷ []) n (depth + 1) nodes
              (omega (arith, length-append dest (name ∷ []))) (omega arith) (ground (arith, wide))
              all_fit)
      | no p ↦ rw (stays_out depth p) (
          sym (
            keep_none n (files_of (dest ++ name ∷ []) nodes) (
              files_of_below (suc n) (dest ++ name ∷ []) nodes
                (omega (arith, length-append dest (name ∷ []))))))
    ]

    items_lem :
        (b : ℕ) (dest : List Text) (n depth : ℕ) (es : Nodes)
        → n + depth ≡ length dest + 2
        → depth ≤ 2
        → count es ≤ b
        → fits_all batch es ≡ true
        → uploads (upload_items mkdir_fails batch b dest es depth)
          ≡ keep (shallow n) (files_of dest es)
    items_lem b dest n depth nil h k c f = refl
    items_lem zero dest n depth (cons x xs) h k c f = absurd (omega arith)
    items_lem (suc b) dest n depth (cons x xs) h k c f =
        let (one, rest) = both_true (fits batch x) (fits_all batch xs) f in
        uploads-append (upload_item mkdir_fails batch dest x depth)
          (upload_items mkdir_fails batch b dest xs depth)
        ∙ ap₂ ◌++◌ (item_lem dest n depth x h k one)
            (items_lem b dest n depth xs h k (omega arith) rest)
        ∙ sym (keep-append (shallow n) (files dest x) (files_of dest xs))

-- Where every directory can be made and no folder holds more entries than one reading gives, the
-- files that are uploaded, in order and with the places that they go to, are exactly those of the
-- dropped entry that lie at most two folders deep; deeper ones are left out.
pub uploads-upload_item :
    (mkdir_fails : List Text → Bool) (batch : ℕ) (dest : List Text) (e : Node)
    → ((d : List Text) → mkdir_fails d ≡ false)
    → fits batch e ≡ true
    → uploads (upload_item mkdir_fails batch dest e 0)
      ≡ keep (λ f. leb (length f.1) (length dest + 2)) (files dest e)
uploads-upload_item mkdir_fails batch dest e works f =
    item_lem mkdir_fails batch works dest (length dest + 2) 0 e (omega arith) (omega arith) f
