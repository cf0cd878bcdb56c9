-- ===== src/Components/Animated/Shown.antt =====
-- What an `AnimatedList` (web/src/components/AnimatedList.tsx) shows of the properties that it was
-- given last.
use web_ssh_tool.Common.{
  ℕ, ◌≡◌, refl, List, [], ◌∷◌, arith, if◌then◌else◌, ◌==◌, ap, ◌∙◌, ==_iff, Bool-cases, inl, inr,
}
use web_ssh_tool.Common.Keyed
use web_ssh_tool.Common.Keyed.{Distinct}
use web_ssh_tool.Components.Animated.{
  Child, AnimatedList, Event, update, timeout, has, from_entries, mount_wrap, rendered, put_all,
  mount_all, create, fire, step, run,
}
use web_ssh_tool.Components.Animated.Rendered.{
  visible, IsGood, get-rendered, update_child-IsGood, update_child-Lives, update_child-visible,
  Distinct-rendered, Distinct-put_all, Follows, put_all-shows,
}
use web_ssh_tool.Components.Animated.Timeouts.{
  settled, get-fire, Distinct-fire, settled-IsGood, visible-settled,
}

module _ {V : Type 0} where
  -- The children belong to the properties.
  pub record Mirrors (ps : List (ℕ × V)) (cs : List (ℕ × Child V)) : Type 0 where
    pub distinct : Distinct cs
    pub good : (k : ℕ) → IsGood (Keyed.get k cs)
    pub shown : (k : ℕ) → visible (Keyed.get k cs) ≡ Keyed.get k (from_entries [] ps)

  rendered-Follows :
      (ps : List (ℕ × V)) (cs : List (ℕ × Child V))
      → ((k : ℕ) → IsGood (Keyed.get k cs))
      → Follows ps [] (rendered ps cs)
  unfolding Keyed.get
  rendered-Follows ps cs good = record {
    shows = λ k h. rw (get-rendered k ps cs, h) (update_child-visible (Keyed.get k cs));
    lives = λ k h. rw (get-rendered k ps cs, h) (update_child-Lives (Keyed.get k cs));
    good =
        λ k. rw (get-rendered k ps cs) (update_child-IsGood (has k ps) (Keyed.get k cs) (good k));
  }

  update-Mirrors :
      (qs ps : List (ℕ × V)) (cs : List (ℕ × Child V))
      → Mirrors qs cs
      → Mirrors ps (put_all ps (rendered ps cs))
  update-Mirrors qs ps cs m = record {
    distinct = Distinct-put_all ps _ (Distinct-rendered ps cs m.distinct);
    good = λ k. (put_all-shows ps [] _ (rendered-Follows ps cs m.good) k).1;
    shown = λ k. (put_all-shows ps [] _ (rendered-Follows ps cs m.good) k).0;
  }

  timeout-Mirrors :
      (k : ℕ) (ps : List (ℕ × V)) (cs : List (ℕ × Child V))
      → Mirrors ps cs
      → Mirrors ps (fire k (Keyed.get k cs) cs)
  timeout-Mirrors k ps cs m = record {
    distinct = Distinct-fire k (Keyed.get k cs) cs m.distinct;
    good = λ j. rw (after j) (elim (Bool-cases (k == j)) [
      | inl t ↦ rw t (settled-IsGood (visible (Keyed.get k cs)))
      | inr t ↦ rw t (m.good j)
    ]);
    shown = λ j. rw (after j) (elim (Bool-cases (k == j)) [
      | inl t ↦ rw t (
          visible-settled (visible (Keyed.get k cs))
          ∙ m.shown k
          ∙ ap (λ (n : ℕ). Keyed.get n (from_entries [] ps)) ((==_iff k j).0 t))
      | inr t ↦ rw t (m.shown j)
    ]);
  }
    where
      after :
          (j : ℕ)
          → Keyed.get j (fire k (Keyed.get k cs) cs)
            ≡ (if k == j then settled (visible (Keyed.get k cs)) else Keyed.get j cs)
      after j = get-fire k j (Keyed.get k cs) cs refl m.distinct (m.good k)

  get-mount_all : (k : ℕ) (m : List (ℕ × V)) → Keyed.get k (mount_all m) ≡ settled (Keyed.get k m)
  unfolding mount_all mount_wrap Keyed.get
  get-mount_all k [] = refl
  get-mount_all k ((j, v) ∷ m) = ground (arith, get-mount_all k m)

  Absent-mount_all : (k : ℕ) (m : List (ℕ × V)) → Keyed.Absent k m → Keyed.Absent k (mount_all m)
  unfolding mount_all
  Absent-mount_all k [] h = tt
  Absent-mount_all k ((j, v) ∷ m) h = (h.0, Absent-mount_all k m h.1)

  Distinct-mount_all : (m : List (ℕ × V)) → Distinct m → Distinct (mount_all m)
  unfolding mount_all
  Distinct-mount_all [] d = tt
  Distinct-mount_all ((j, v) ∷ m) d = (Absent-mount_all j m d.0, Distinct-mount_all m d.1)

  Distinct-from_entries : (m ps : List (ℕ × V)) → Distinct m → Distinct (from_entries m ps)
  unfolding from_entries
  Distinct-from_entries m [] d = d
  Distinct-from_entries m ((k, v) ∷ ps) d =
      Distinct-from_entries (Keyed.set k v m) ps (Keyed.Distinct-set k v m d)

  pub create-Mirrors : (ps : List (ℕ × V)) → Mirrors ps (create ps).children
  unfolding create
  create-Mirrors ps = record {
    distinct = Distinct-mount_all _ (Distinct-from_entries [] ps tt);
    good = λ k.
        rw (get-mount_all k (from_entries [] ps))
          (settled-IsGood (Keyed.get k (from_entries [] ps)));
    shown = λ k.
        rw (get-mount_all k (from_entries [] ps))
          (visible-settled (Keyed.get k (from_entries [] ps)));
  }

  pub step-Mirrors :
      (e : Event V) (l : AnimatedList V)
      → Mirrors l.props l.children
      → Mirrors (step e l).props (step e l).children
  unfolding step
  step-Mirrors (update ps) l m = update-Mirrors l.props ps l.children m
  step-Mirrors (timeout k) l m = timeout-Mirrors k l.props l.children m

  pub run-Mirrors :
      (es : List (Event V)) (l : AnimatedList V)
      → Mirrors l.props l.children
      → Mirrors (run es l).props (run es l).children
  unfolding run
  run-Mirrors [] l m = m
  run-Mirrors (e ∷ es) l m = run-Mirrors es (step e l) (step-Mirrors e l m)

  -- The properties that the list was given last.
  abbrev pub last_props : List (ℕ × V) → List (Event V) → List (ℕ × V)
  last_props ps [] = ps
  last_props ps (update qs ∷ es) = last_props qs es
  last_props ps (timeout k ∷ es) = last_props ps es

  pub run-props :
      (es : List (Event V)) (l : AnimatedList V) → (run es l).props ≡ last_props l.props es
  unfolding run step
  run-props [] l = refl
  run-props (update qs ∷ es) l = run-props es (step (update qs) l)
  run-props (timeout k ∷ es) l = run-props es (step (timeout k) l)

  -- The list refines the map of its properties: after any changes of the properties and any ends of
  -- timeouts, in any order, the child under each key, if it is not one that is on its way out, has
  -- the node that `new Map` of the last properties has under the key, and where that has none, no
  -- child is shown but such on their way out.
  pub list_refines_map :
      (ps : List (ℕ × V)) (es : List (Event V)) (k : ℕ)
      → visible (Keyed.get k (run es (create ps)).children)
        ≡ Keyed.get k (from_entries [] (last_props ps es))
  unfolding create
  list_refines_map ps es k =
      (run-Mirrors es (create ps) (create-Mirrors ps)).shown k
      ∙ ap (λ (qs : List (ℕ × V)). Keyed.get k (from_entries [] qs)) (run-props es (create ps))
