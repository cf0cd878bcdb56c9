-- ===== src/Snackbar/Order.antt =====
-- The order of the functions of `AsyncSequence` (Scaffold.tsx).
use mathlib.Core.List.{append-nil, append_assoc}
use web_ssh_tool.Common.{
  ℕ, ◌≡◌, ◌≢◌, refl, sym, ap, ◌∙◌, Bool, true, false, none, List, [], ◌∷◌, ◌++◌, arith,
  if◌then◌else◌, Bool-cases, Option-cases, inl, inr, All, length, ◌+◌, ◌≤◌, zero, suc,
}
use web_ssh_tool.Snackbar.{
  Sequence, empty, post, finish, pop_all, clear, next, start, Event, posted, finished, cleared,
  step, run,
}

-- `_running` says whether a function is awaited, and nothing waits behind none.
pub record IsSound {J : Type 0} (s : Sequence J) : Type 0 where
  pub busy : s.running ≡ true → s.current ≢ none
  pub idle : s.running ≡ false → (s.current ≡ none) × (s.fns ≡ [])

module _ {J : Type 0} where
  next-IsSound : (s : Sequence J) → s.running ≡ true → IsSound (next s)
  unfolding next
  next-IsSound s h = ground arith

  pop_all-eq-nil : (ps : List J) → pop_all ps ≡ []
  unfolding pop_all
  pop_all-eq-nil [] = refl
  pop_all-eq-nil (p ∷ ps) = pop_all-eq-nil ps

  step-IsSound : (e : Event J) (s : Sequence J) → IsSound s → IsSound (step e s)
  unfolding step
  step-IsSound (posted p) s v = ground arith
  step-IsSound finished s v = ground arith
  step-IsSound cleared s v = ground (arith, pop_all-eq-nil s.fns)

  run-IsSound : (es : List (Event J)) (s : Sequence J) → IsSound s → IsSound (run es s)
  unfolding run
  run-IsSound [] s v = v
  run-IsSound (e ∷ es) s v = run-IsSound es (step e s) (step-IsSound e s v)

  abbrev pub is_clear : Event J → Bool
  is_clear cleared = true
  is_clear _ = false

  -- What an event posts, and what a list of events posts.
  abbrev pub post_of : Event J → List J
  post_of (posted p) = p ∷ []
  post_of _ = []

  abbrev pub posts : List (Event J) → List J
  posts [] = []
  posts (e ∷ es) = post_of e ++ posts es

  -- Started and waiting functions together.
  abbrev line : Sequence J → List J
  line s = s.log ++ s.fns

  line-next : (s : Sequence J) → line (next s) ≡ line s
  line-next s = go s.fns refl
    where
      go : (ps : List J) → s.fns ≡ ps → line (next s) ≡ line s
      go [] e = unfold next in rw (e, next) (ap (λ l. s.log ++ l) e)
      go (p ∷ ps) e = unfold next in rw (e, next, append_assoc)

  line-start : (s : Sequence J) → line (start s) ≡ line s
  unfolding start
  line-start s = elim (Bool-cases s.running) [
    | inl e ↦ simp e
    | inr e ↦ simp e (line-next (record s { running = true }))
  ]

  line-finish : (s : Sequence J) → line (finish s) ≡ line s
  unfolding finish
  line-finish s = elim (Option-cases s.current) [
    | inl e ↦ rw e
    | inr (p, e) ↦ rw e (line-next (record s { current = none }))
  ]

  line-step :
      (e : Event J) (s : Sequence J) → is_clear e ≡ false → line (step e s) ≡ line s ++ post_of e
  unfolding step post
  line-step (posted p) s h =
      line-start (record s { fns = s.fns ++ p ∷ [] }) ∙ sym (append_assoc s.log s.fns (p ∷ []))
  line-step finished s h = line-finish s ∙ sym (append-nil (line s))
  line-step cleared s h = cc

  line-run :
      (es : List (Event J)) (s : Sequence J)
      → All (λ e. is_clear e ≡ false) es
      → line (run es s) ≡ line s ++ posts es
  unfolding run
  line-run [] s h = sym (append-nil (line s))
  line-run (e ∷ es) s h =
      line-run es (step e s) h.1
      ∙ ap (λ l. l ++ posts es) (line-step e s h.0)
      ∙ append_assoc (line s) (post_of e) (posts es)

  -- Waiting functions, and the one that runs.
  abbrev load : Sequence J → ℕ
  load s = length s.fns + (if s.running then 1 else 0)

  load-finish : (s : Sequence J) → IsSound s → s.running ≡ true → load (finish s) + 1 ≡ load s
  unfolding finish next
  load-finish s v h = ground (arith, v.busy h)

  abbrev pub finishes : ℕ → List (Event J)
  finishes zero = []
  finishes (suc n) = finished ∷ finishes n

  rest_of_idle : (s : Sequence J) → IsSound s → s.running ≡ false → step finished s ≡ s
  unfolding step finish
  rest_of_idle s v h = ground arith

  drain :
      (n : ℕ) (s : Sequence J)
      → IsSound s
      → load s ≤ n
      → ((run (finishes n) s).fns ≡ []) × ((run (finishes n) s).running ≡ false)
  unfolding run
  drain zero s v h = ground arith
  drain (suc n) s v h = elim (Bool-cases s.running) [
    | inl e ↦
        drain n (step finished s) (step-IsSound finished s v)
          (unfold step in omega (arith, load-finish s v e))
    | inr e ↦ rw (rest_of_idle s v e, run) (drain n s v (ground (arith, v.idle e)))
  ]

module _ (J : Type 0) where
  clear_free : (n : ℕ) → All (λ (e : Event J). is_clear e ≡ false) (finishes n)
  clear_free zero = tt
  clear_free (suc n) = (refl, clear_free n)

  posts-finishes : (n : ℕ) → posts (finishes {J = J} n) ≡ []
  posts-finishes zero = refl
  posts-finishes (suc n) = posts-finishes n

-- From a sequence that was made by any events, functions posted with no clearing are started in the
-- order of posting, behind those that started or waited before, none left out and none twice; once
-- as many functions have returned as there were to run, all were started and nothing runs. A
-- clearing drops what waits and touches neither what runs nor what was started.
pub sequence_in_order :
    {J : Type 0} (before es : List (Event J)) (n : ℕ)
    → All (λ e. is_clear e ≡ false) es
    → let s = run before (empty {J = J}) in
      length (run es s).fns + (if (run es s).running then 1 else 0) ≤ n
      → ((run (finishes n) (run es s)).log ≡ (s.log ++ s.fns) ++ posts es)
        × ((run (finishes n) (run es s)).running ≡ false)
        × (clear s ≡ record s { fns = [] })
sequence_in_order {J} before es n h enough =
    let s : Sequence J = run before empty in
    let v : IsSound s =
      run-IsSound before empty (record { busy = λ e. cc e; idle = λ e. (refl, refl) }) in
    let (none_left, quiet) = drain n (run es s) (run-IsSound es s v) enough in
    (
      sym (append-nil (run (finishes n) (run es s)).log)
          ∙ ap (λ l. (run (finishes n) (run es s)).log ++ l) (sym none_left)
          ∙ line-run (finishes n) (run es s) (clear_free J n)
          ∙ rw (posts-finishes J n, append-nil) (line-run es s h),
      quiet,
      unfold clear in rw pop_all-eq-nil,
    )
