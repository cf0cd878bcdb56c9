-- ===== src/Explorer/Actions/Verdicts.antt =====
-- The messages of DeleteDialog.tsx and CopyToDialog.tsx.
use web_ssh_tool.Common.{
  ℕ, suc, ◌+◌, ◌≤◌, ◌<◌, ◌≡◌, refl, ◌↔◌, Bool, true, false, not, List, [], ◌∷◌, every, any, length,
  arith, ap,
}
use web_ssh_tool.Explorer.Types.{Lstat}
use web_ssh_tool.Explorer.Actions.{
  Operation, requests, results, Verdict, all_failed, succeed, verdict, Done, perform,
}

-- How many objects the operation did.
abbrev pub successes : List Bool → ℕ
successes [] = 0
successes (true ∷ value) = suc (successes value)
successes (false ∷ value) = successes value

successes-le : (value : List Bool) → successes value ≤ length value
successes-le [] = omega arith
successes-le (true ∷ value) = omega (arith, successes-le value)
successes-le (false ∷ value) = omega (arith, successes-le value)

every-not : (value : List Bool) → (every not value ≡ true) ↔ (successes value ≡ 0)
every-not [] = ground arith
every-not (true ∷ value) = ground arith
every-not (false ∷ value) = ground (arith, every-not value)

any-not : (value : List Bool) → (any not value ≡ true) ↔ (successes value < length value)
any-not [] = ground arith
any-not (true ∷ value) = ground (arith, any-not value)
any-not (false ∷ value) = ground (arith, successes-le value)

-- The message and the closing of the dialog, by the number of objects that were done.
pub record IsTold (total : ℕ) (d : Done) : Type 0 where
  pub every_object : length d.value ≡ total
  pub asked : successes d.value ≤ length d.asked
  pub all_failed : (d.message ≡ Verdict.all_failed) ↔ (successes d.value ≡ 0)
  pub succeed : (d.message ≡ Verdict.succeed) ↔ ((successes d.value ≡ total) × (0 < total))
  pub closes : (d.closes ≡ true) ↔ (0 < successes d.value)

length-results :
    (op : Operation) (is_error : ℕ → Bool) (n : ℕ) (objects : List Lstat)
    → length (results op is_error n objects) ≡ length objects
unfolding results
length-results op is_error n [] = refl
length-results op is_error n (s ∷ objects) = ap suc (length-results op is_error (n + 1) objects)

successes-results :
    (op : Operation) (is_error : ℕ → Bool) (n : ℕ) (objects : List Lstat)
    → successes (results op is_error n objects) ≤ length (requests op objects)
unfolding results requests
successes-results op is_error n [] = omega arith
successes-results op is_error n (s ∷ objects) =
    ground (arith, successes-results op is_error (n + 1) objects)

told :
    (value : List Bool)
    → ((verdict value ≡ all_failed) ↔ (successes value ≡ 0))
      × ((verdict value ≡ succeed) ↔ ((successes value ≡ length value) × (0 < length value)))
      × ((not (every not value) ≡ true) ↔ (0 < successes value))
unfolding verdict
told value = ground (arith, every-not value, any-not value, successes-le value)

-- Deleting, trashing, copying and moving look at every object and count none as done that they
-- asked nothing for; they say that all failed exactly if none was done, that they succeeded exactly
-- if all were and there was one, and the dialog closes exactly if at least one was done.
pub perform-IsTold :
    (op : Operation) (is_error : ℕ → Bool) (objects : List Lstat)
    → IsTold (length objects) (perform op is_error objects)
unfolding perform
perform-IsTold op is_error objects =
    let value = results op is_error 0 objects in
    let same = length-results op is_error 0 objects in
    let (none_done, all_done, shut) = told value in
    record {
      every_object = same;
      asked = successes-results op is_error 0 objects;
      all_failed = none_done;
      succeed = rw (← same) all_done;
      closes = shut;
    }
