-- ===== src/Components/Animated/Settled.antt =====
-- An `AnimatedList` (web/src/components/AnimatedList.tsx) when its timeouts are over.
use web_ssh_tool.Common.{
  ℕ, ◌≡◌, ◌≢◌, refl, true, false, Option, none, List, [], ◌∷◌, ◌++◌, map, arith, any, ◌==◌, ap, sym,
  ◌∙◌, ◌⊎◌, ==_iff, Bool-cases, Option-cases, inl, inr,
}
use web_ssh_tool.Common.Keyed
use web_ssh_tool.Components.Animated.{
  Child, AnimatedList, Event, timeout, from_entries, create, step, run,
}
use web_ssh_tool.Components.Animated.Rendered.{visible}
use web_ssh_tool.Components.Animated.Timeouts.{settled, get-fire}
use web_ssh_tool.Components.Animated.Shown.{
  Mirrors, create-Mirrors, step-Mirrors, run-Mirrors, run-props, last_props,
}

module _ {V : Type 0} where
  -- What is shown under a key when all is over.
  abbrev pub final : ℕ → List (ℕ × V) → Option (Child V)
  final k ps = settled (Keyed.get k (from_entries [] ps))

  timeout_own :
      (k : ℕ) (l : AnimatedList V)
      → Mirrors l.props l.children
      → Keyed.get k (step (timeout k) l).children ≡ final k l.props
  unfolding step
  timeout_own k l m = ground (
    arith,
    get-fire k k (Keyed.get k l.children) l.children refl m.distinct (m.good k),
    m.shown k,
  )

  timeout_other :
      (j k : ℕ) (l : AnimatedList V)
      → Mirrors l.props l.children
      → (j == k) ≡ false
      → Keyed.get k (step (timeout j) l).children ≡ Keyed.get k l.children
  unfolding step
  timeout_other j k l m h =
      rw (get-fire j k (Keyed.get j l.children) l.children refl m.distinct (m.good j), h)

  timeouts-final :
      (ks : List ℕ) (k : ℕ) (l : AnimatedList V)
      → Mirrors l.props l.children
      → (any (λ j. j == k) ks ≡ true) ⊎ (Keyed.get k l.children ≡ final k l.props)
      → Keyed.get k (run (map timeout ks) l).children ≡ final k l.props
  unfolding run step
  timeouts-final [] k l m (inl h) = cc
  timeouts-final [] k l m (inr h) = h
  timeouts-final (j ∷ ks) k l m h = elim (Bool-cases (j == k)) [
    | inl e ↦ timeouts-final ks k (step (timeout j) l) m' (inr (own e))
    | inr e ↦ timeouts-final ks k (step (timeout j) l) m' (others e h)
  ]
    where
      m' : Mirrors (step (timeout j) l).props (step (timeout j) l).children
      m' = step-Mirrors (timeout j) l m

      own : (j == k) ≡ true → Keyed.get k (step (timeout j) l).children ≡ final k l.props
      own e = rw ((==_iff j k).0 e) (timeout_own k l m)

      others :
          (j == k) ≡ false
          → (any (λ i. i == k) (j ∷ ks) ≡ true) ⊎ (Keyed.get k l.children ≡ final k l.props)
          → (any (λ i. i == k) ks ≡ true)
            ⊎ (Keyed.get k (step (timeout j) l).children ≡ final k l.props)
      others e (inl t) = inl (rw e at t)
      others e (inr t) = inr (timeout_other j k l m e ∙ t)

  run-append : (es fs : List (Event V)) (l : AnimatedList V) → run (es ++ fs) l ≡ run fs (run es l)
  unfolding run
  run-append [] fs l = refl
  run-append (e ∷ es) fs l = run-append es fs (step e l)

  -- Every animation ends: if after any changes and ends of timeouts the timeouts of all children
  -- that there are end, in any order, then the list has a child under exactly the keys of the map of
  -- the last properties, each with the node of that map, in the state `entered` and with no timer.
  pub animations_end :
      (ps : List (ℕ × V)) (es : List (Event V)) (ks : List ℕ)
      → ((k : ℕ) → Keyed.get k (run es (create ps)).children ≢ none → any (λ j. j == k) ks ≡ true)
      → (k : ℕ)
      → Keyed.get k (run (es ++ map timeout ks) (create ps)).children ≡ final k (last_props ps es)
  unfolding create
  animations_end ps es ks covers k =
      rw (run-append es (map timeout ks) (create ps))
        (timeouts-final ks k l m start ∙ ap (final k) (run-props es (create ps)))
    where
      l : AnimatedList V
      l = run es (create ps)

      m : Mirrors l.props l.children
      m = run-Mirrors es (create ps) (create-Mirrors ps)

      start : (any (λ j. j == k) ks ≡ true) ⊎ (Keyed.get k l.children ≡ final k l.props)
      start = elim (Option-cases (Keyed.get k l.children)) [
        | inl e ↦ inr (e ∙ ap settled (ap visible (sym e) ∙ m.shown k))
        | inr (c, e) ↦ inl (covers k (λ h. cc))
      ]
