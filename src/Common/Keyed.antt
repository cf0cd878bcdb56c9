-- ===== src/Common/Keyed.antt =====
-- JavaScript's `Map` with numeric keys, as its entries in insertion order.
use web_ssh_tool.Common.Tests.{◌==◌, if◌then◌else◌}
use web_ssh_tool.Common.Lists.{length}
use Prim.Native.Nat.{ℕ, ◌+◌, ◌≤◌, ◌<◌}
use mathlib.Core.Path.{◌≡◌, refl}
use mathlib.Core.Logic.{◌≢◌}
use mathlib.Core.Option.{Option, none, some}
use mathlib.Core.List.{List, [], ◌∷◌}
use native.Mathlib.Omega.{arith}

module _ {ℓ} {V : Type ℓ} where
  -- `m.get(k)`
  unfoldable pub get : ℕ → List (ℕ × V) → Option V
  get k [] = none
  get k ((j, v) ∷ m) = if j == k then some v else get k m

  -- `m.set(k, v)`: an old entry keeps its place, a new one comes last
  unfoldable pub set : ℕ → V → List (ℕ × V) → List (ℕ × V)
  set k v [] = (k, v) ∷ []
  set k v ((j, w) ∷ m) = if j == k then (k, v) ∷ m else (j, w) ∷ set k v m

  -- `m.delete(k)`
  unfoldable pub delete : ℕ → List (ℕ × V) → List (ℕ × V)
  delete k [] = []
  delete k ((j, w) ∷ m) = let rest = delete k m in if j == k then m else (j, w) ∷ rest

  -- Every key is below a bound.
  abbrev pub Below : ℕ → List (ℕ × V) → Type 0
  Below n [] = Unit
  Below n ((j, v) ∷ m) = (j < n) × Below n m

  -- No key occurs twice.
  abbrev pub Absent : ℕ → List (ℕ × V) → Type 0
  Absent k [] = Unit
  Absent k ((j, v) ∷ m) = (j ≢ k) × Absent k m

  abbrev pub Distinct : List (ℕ × V) → Type 0
  Distinct [] = Unit
  Distinct ((j, v) ∷ m) = Absent j m × Distinct m

  pub get-set :
      (k j : ℕ) (v : V) (m : List (ℕ × V))
      → get j (set k v m) ≡ (if k == j then some v else get j m)
  unfolding get set
  get-set k j v [] = refl
  get-set k j v ((i, w) ∷ m) = ground (arith, get-set k j v m)

  pub get_of_Absent : (k : ℕ) (m : List (ℕ × V)) → Absent k m → get k m ≡ none
  unfolding get
  get_of_Absent k [] h = refl
  get_of_Absent k ((j, w) ∷ m) h = ground (arith, get_of_Absent k m)

  pub Absent-of_Below : (n k : ℕ) (m : List (ℕ × V)) → Below n m → n ≤ k → Absent k m
  Absent-of_Below n k [] h le = tt
  Absent-of_Below n k ((j, w) ∷ m) h le = ground (arith, Absent-of_Below n k m)

  pub Absent-delete : (k j : ℕ) (m : List (ℕ × V)) → Absent k m → Absent k (delete j m)
  unfolding delete
  Absent-delete k j [] h = tt
  Absent-delete k j ((i, w) ∷ m) h = ground (arith, Absent-delete k j m)

  pub get-delete :
      (k j : ℕ) (m : List (ℕ × V))
      → Distinct m
      → get j (delete k m) ≡ (if k == j then none else get j m)
  unfolding get delete
  get-delete k j [] d = ground arith
  get-delete k j ((i, w) ∷ m) d = ground (arith, get-delete k j m, get_of_Absent i m)

  pub Distinct-delete : (k : ℕ) (m : List (ℕ × V)) → Distinct m → Distinct (delete k m)
  unfolding delete
  Distinct-delete k [] d = tt
  Distinct-delete k ((i, w) ∷ m) d = ground (arith, Distinct-delete k m, Absent-delete i k m)

  pub Absent-set : (k j : ℕ) (v : V) (m : List (ℕ × V)) → Absent k m → j ≢ k → Absent k (set j v m)
  unfolding set
  Absent-set k j v [] h ne = (ne, tt)
  Absent-set k j v ((i, w) ∷ m) h ne = ground (arith, Absent-set k j v m)

  pub Distinct-set : (k : ℕ) (v : V) (m : List (ℕ × V)) → Distinct m → Distinct (set k v m)
  unfolding set
  Distinct-set k v [] d = (tt, tt)
  Distinct-set k v ((i, w) ∷ m) d = ground (arith, Distinct-set k v m, Absent-set i k v m)

  pub Below-weaken : (n n' : ℕ) (m : List (ℕ × V)) → Below n m → n ≤ n' → Below n' m
  Below-weaken n n' [] h le = tt
  Below-weaken n n' ((j, w) ∷ m) h le = ground (arith, Below-weaken n n' m)

  pub Below-delete : (n k : ℕ) (m : List (ℕ × V)) → Below n m → Below n (delete k m)
  unfolding delete
  Below-delete n k [] h = tt
  Below-delete n k ((j, w) ∷ m) h = ground (arith, Below-delete n k m)

  pub Below-set : (n k : ℕ) (v : V) (m : List (ℕ × V)) → Below n m → k < n → Below n (set k v m)
  unfolding set
  Below-set n k v [] h lt = (lt, tt)
  Below-set n k v ((j, w) ∷ m) h lt = ground (arith, Below-set n k v m)

  pub length-set-Absent :
      (k : ℕ) (v : V) (m : List (ℕ × V)) → Absent k m → length (set k v m) ≡ length m + 1
  unfolding set
  length-set-Absent k v [] h = omega arith
  length-set-Absent k v ((j, w) ∷ m) h = ground (arith, length-set-Absent k v m)

  pub length-delete :
      (k : ℕ) (m : List (ℕ × V)) (v : V) → get k m ≡ some v → length (delete k m) + 1 ≡ length m
  unfolding get delete
  length-delete k [] v e = ground arith
  length-delete k ((j, w) ∷ m) v e = ground (arith, length-delete k m v)

  pub lt_of_get : (n k : ℕ) (m : List (ℕ × V)) (v : V) → Below n m → get k m ≡ some v → k < n
  unfolding get
  lt_of_get n k [] v h e = ground arith
  lt_of_get n k ((j, w) ∷ m) v h e = ground (arith, lt_of_get n k m v)
