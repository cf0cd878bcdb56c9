-- ===== src/Explorer/Order/Sorting.antt =====
-- Stable sorting by a comparison, for `sortArray` of file-explorer/Common.tsx.
use mathlib.Core.List.{Perm}
use mathlib.Core.List.Perm
use web_ssh_tool.Common.{
  ◌≡◌, ◌≢◌, refl, ◌∙◌, ◌⊎◌, inl, inr, Bool, true, false, List, [], ◌∷◌, arith, All, keep,
}
use web_ssh_tool.Explorer.Order.Signs.{Sign, negative, nil, positive, IsConsistent}
use web_ssh_tool.Explorer.Order.{insert, sort}

-- Each element compares not greater than those behind it.
abbrev pub IsSorted {ℓ} : {A : Type ℓ} → (A → A → Sign) → List A → Type 0
IsSorted cmp [] = Unit
IsSorted cmp (x ∷ xs) = All (λ y. cmp x y ≢ positive) xs × IsSorted cmp xs

abbrev pub is_nil : Sign → Bool
is_nil nil = true
is_nil _ = false

-- One round of `insert`: the element goes on, or stands here.
insert-cases {ℓ} :
    {A : Type ℓ} (cmp : A → A → Sign) (x y : A) (ys : List A)
    → ((cmp x y ≡ positive) × (insert cmp x (y ∷ ys) ≡ y ∷ insert cmp x ys))
      ⊎ ((cmp x y ≢ positive) × (insert cmp x (y ∷ ys) ≡ x ∷ y ∷ ys))
unfolding insert
insert-cases cmp x y ys = go (cmp x y) refl
  where
    go :
        (s : Sign)
        → cmp x y ≡ s
        → ((cmp x y ≡ positive) × (insert cmp x (y ∷ ys) ≡ y ∷ insert cmp x ys))
          ⊎ ((cmp x y ≢ positive) × (insert cmp x (y ∷ ys) ≡ x ∷ y ∷ ys))
    go positive e = inl (e, rw (e, insert))
    go nil e = inr (rw e (cc), rw (e, insert))
    go negative e = inr (rw e (cc), rw (e, insert))

module _ {ℓ} {A : Type ℓ} (cmp : A → A → Sign) where
  insert-perm : (x : A) (ys : List A) → Perm (insert cmp x ys) (x ∷ ys)
  insert-perm x [] = unfold insert in Perm.refl (x ∷ [])
  insert-perm x (y ∷ ys) = elim (insert-cases cmp x y ys) [
    | inl (e, same) ↦ rw same (Perm.trans (Perm.cons y (insert-perm x ys)) (Perm.swap x y ys))
    | inr (e, same) ↦ rw same (Perm.refl (x ∷ y ∷ ys))
  ]

  pub sort-perm : (xs : List A) → Perm (sort cmp xs) xs
  unfolding sort
  sort-perm [] = Perm.refl []
  sort-perm (x ∷ xs) = Perm.trans (insert-perm x (sort cmp xs)) (Perm.cons x (sort-perm xs))

module _ {ℓ κ} {A : Type ℓ} (cmp : A → A → Sign) (P : A → Type κ) where
  All-insert : (x : A) (ys : List A) → P x → All P ys → All P (insert cmp x ys)
  All-insert x [] p h = unfold insert in (p, tt)
  All-insert x (y ∷ ys) p h = elim (insert-cases cmp x y ys) [
    | inl (e, same) ↦ rw same (h.0, All-insert x ys p h.1)
    | inr (e, same) ↦ rw same (p, h)
  ]

  All-sort : (xs : List A) → All P xs → All P (sort cmp xs)
  unfolding sort
  All-sort [] h = tt
  All-sort (x ∷ xs) h = All-insert x (sort cmp xs) h.0 (All-sort xs h.1)

module _ {ℓ} {A : Type ℓ} {P : A → Type 0} {cmp : A → A → Sign} (c : IsConsistent P cmp) where
  behind :
      (x y : A) (ys : List A)
      → P x
      → P y
      → All P ys
      → cmp x y ≢ positive
      → All (λ z. cmp y z ≢ positive) ys
      → All (λ z. cmp x z ≢ positive) ys
  behind x y [] px py ps h hs = tt
  behind x y (z ∷ ys) px py ps h hs =
      (c.trans x y z px py ps.0 h hs.0, behind x y ys px py ps.1 h hs.1)

  insert-IsSorted :
      (x : A) (ys : List A) → P x → All P ys → IsSorted cmp ys → IsSorted cmp (insert cmp x ys)
  insert-IsSorted x [] px ps h = unfold insert in (tt, tt)
  insert-IsSorted x (y ∷ ys) px ps (first, h) = elim (insert-cases cmp x y ys) [
    | inl (e, same) ↦ rw same (
      All-insert cmp (λ z. cmp y z ≢ positive) x ys (rw (c.swap x y px ps.0, e) (cc)) first,
      insert-IsSorted x ys px ps.1 h,
    )
    | inr (e, same) ↦ rw same ((e, behind x y ys px ps.0 ps.1 e first), (first, h))
  ]

  pub sort-IsSorted : (xs : List A) → All P xs → IsSorted cmp (sort cmp xs)
  unfolding sort
  sort-IsSorted [] h = tt
  sort-IsSorted (x ∷ xs) h =
      insert-IsSorted x (sort cmp xs) h.0 (All-sort cmp P xs h.1) (sort-IsSorted xs h.1)

  -- The elements that are level with `k`.
  abbrev pub level : A → List A → List A
  level k xs = keep (λ x. is_nil (cmp k x)) xs

  not_level :
      (k x y : A)
      → P k
      → P x
      → P y
      → cmp x y ≡ positive
      → is_nil (cmp k x) ≡ true
      → is_nil (cmp k y) ≡ false
  not_level k x y pk px py e h =
      ground (arith, c.swap k x pk px, c.swap k y pk py, c.trans x k y px pk py)

  level-insert :
      (k x : A) (ys : List A) → P k → P x → All P ys → level k (insert cmp x ys) ≡ level k (x ∷ ys)
  level-insert k x [] pk px ps = unfold insert in refl
  level-insert k x (y ∷ ys) pk px ps = elim (insert-cases cmp x y ys) [
    | inl (e, same) ↦
        rw (same, level-insert k x ys pk px ps.1) (ground (arith, not_level k x y pk px ps.0 e))
    | inr (e, same) ↦ rw same
  ]

  pub level-sort : (k : A) (xs : List A) → P k → All P xs → level k (sort cmp xs) ≡ level k xs
  unfolding sort
  level-sort k [] pk h = refl
  level-sort k (x ∷ xs) pk h =
      level-insert k x (sort cmp xs) pk h.0 (All-sort cmp P xs h.1) ∙ rw (level-sort k xs pk h.1)
