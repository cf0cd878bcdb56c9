-- ===== src/Components/Animated/Rendered.antt =====
-- The children of an `AnimatedList` (web/src/components/AnimatedList.tsx) under new properties.
use web_ssh_tool.Common.{
  ℕ, ◌≡◌, refl, Bool, true, false, Option, none, some, List, [], ◌∷◌, arith, if◌then◌else◌, ◌==◌,
  Bool-cases, ==_refl, inl, inr, ◌⊎◌,
}
use web_ssh_tool.Common.Keyed
use web_ssh_tool.Common.Keyed.{Distinct}
use web_ssh_tool.Components.Animated.{
  entering, entered, exit, to_entered, to_exit, Child, has, from_entries, mount_wrap, updated,
  rendered, renewed, put_all,
}

module _ {V : Type 0} where
  -- The node of a child that is in the properties.
  abbrev pub visible : Option (Child V) → Option V
  visible none = none
  visible (some c) = if c.existed then some c.node else none

  -- The state of a `Wrap` and what its timer is for, by `isExisted`.
  abbrev pub IsGood : Option (Child V) → Type 0
  IsGood none = Unit
  IsGood (some c) =
      if c.existed
      then ((c.state ≡ entered) × (c.timer ≡ none))
        ⊎ ((c.state ≡ entering) × (c.timer ≡ some to_entered))
      else (c.state ≡ exit) × (c.timer ≡ some to_exit)

  abbrev pub Lives : Option (Child V) → Type 0
  Lives none = Unit
  Lives (some c) = c.existed ≡ true

  abbrev pub update_child : Bool → Option (Child V) → Option (Child V)
  update_child b none = none
  update_child b (some c) = some (updated c.existed b c)

  pub get-rendered :
      (k : ℕ) (ps : List (ℕ × V)) (cs : List (ℕ × Child V))
      → Keyed.get k (rendered ps cs) ≡ update_child (has k ps) (Keyed.get k cs)
  unfolding rendered Keyed.get
  get-rendered k ps [] = refl
  get-rendered k ps ((j, c) ∷ cs) = ground (arith, get-rendered k ps cs)

  -- A child after the rendering with the new properties.
  pub update_child-IsGood : (b : Bool) (o : Option (Child V)) → IsGood o → IsGood (update_child b o)
  unfolding updated
  update_child-IsGood b none h = tt
  update_child-IsGood true (some c) h = ground arith
  update_child-IsGood false (some c) h = ground arith

  pub update_child-Lives : (o : Option (Child V)) → Lives (update_child true o)
  unfolding updated
  update_child-Lives none = tt
  update_child-Lives (some c) = ground arith

  pub update_child-visible : (o : Option (Child V)) → visible (update_child false o) ≡ none
  unfolding updated
  update_child-visible none = refl
  update_child-visible (some c) = ground arith

  Absent-rendered :
      (k : ℕ) (ps : List (ℕ × V)) (cs : List (ℕ × Child V))
      → Keyed.Absent k cs
      → Keyed.Absent k (rendered ps cs)
  unfolding rendered
  Absent-rendered k ps [] h = tt
  Absent-rendered k ps ((j, c) ∷ cs) h = (h.0, Absent-rendered k ps cs h.1)

  pub Distinct-rendered :
      (ps : List (ℕ × V)) (cs : List (ℕ × Child V)) → Distinct cs → Distinct (rendered ps cs)
  unfolding rendered
  Distinct-rendered ps [] d = tt
  Distinct-rendered ps ((j, c) ∷ cs) d = (Absent-rendered j ps cs d.0, Distinct-rendered ps cs d.1)

  pub Distinct-put_all :
      (ps : List (ℕ × V)) (cs : List (ℕ × Child V)) → Distinct cs → Distinct (put_all ps cs)
  unfolding put_all
  Distinct-put_all [] cs d = d
  Distinct-put_all ((k, v) ∷ ps) cs d =
      Distinct-put_all ps _ (Keyed.Distinct-set k (renewed v (Keyed.get k cs)) cs d)

  -- The children while the properties are put in: `m` is the map of those that are in already.
  pub record Follows (ps m : List (ℕ × V)) (cs : List (ℕ × Child V)) : Type 0 where
    pub shows : (k : ℕ) → has k ps ≡ false → visible (Keyed.get k cs) ≡ Keyed.get k m
    pub lives : (k : ℕ) → has k ps ≡ true → Lives (Keyed.get k cs)
    pub good : (k : ℕ) → IsGood (Keyed.get k cs)

  renewed-visible : (v : V) (o : Option (Child V)) → Lives o → visible (some (renewed v o)) ≡ some v
  unfolding renewed mount_wrap
  renewed-visible v none h = refl
  renewed-visible v (some c) h = rw h

  renewed-Lives : (v : V) (o : Option (Child V)) → Lives o → Lives (some (renewed v o))
  unfolding renewed mount_wrap
  renewed-Lives v none h = refl
  renewed-Lives v (some c) h = h

  renewed-IsGood : (v : V) (o : Option (Child V)) → IsGood o → IsGood (some (renewed v o))
  unfolding renewed mount_wrap
  renewed-IsGood v none h = inr (refl, refl)
  renewed-IsGood v (some c) h = h

  put-Follows :
      (k : ℕ) (v : V) (ps m : List (ℕ × V)) (cs : List (ℕ × Child V))
      → Follows ((k, v) ∷ ps) m cs
      → Follows ps (Keyed.set k v m) (Keyed.set k (renewed v (Keyed.get k cs)) cs)
  unfolding has
  put-Follows k v ps m cs f = record {
    shows = λ j h. elim (Bool-cases (k == j)) [
      | inl e ↦
          rw (Keyed.get-set k j new cs, Keyed.get-set k j v m, e) (renewed-visible v old lives)
      | inr e ↦ rw (Keyed.get-set k j new cs, Keyed.get-set k j v m, e) (f.shows j (rw (e, h)))
    ];
    lives = λ j h. elim (Bool-cases (k == j)) [
      | inl e ↦ rw (Keyed.get-set k j new cs, e) (renewed-Lives v old lives)
      | inr e ↦ rw (Keyed.get-set k j new cs, e) (f.lives j (rw (e, h)))
    ];
    good = λ j. elim (Bool-cases (k == j)) [
      | inl e ↦ rw (Keyed.get-set k j new cs, e) (renewed-IsGood v old (f.good k))
      | inr e ↦ rw (Keyed.get-set k j new cs, e) (f.good j)
    ];
  }
    where
      old : Option (Child V)
      old = Keyed.get k cs

      new : Child V
      new = renewed v old

      lives : Lives old
      lives = f.lives k (rw (==_refl k))

  pub put_all-shows :
      (ps m : List (ℕ × V)) (cs : List (ℕ × Child V))
      → Follows ps m cs
      → (k : ℕ)
      → (visible (Keyed.get k (put_all ps cs)) ≡ Keyed.get k (from_entries m ps))
        × IsGood (Keyed.get k (put_all ps cs))
  unfolding put_all from_entries has
  put_all-shows [] m cs f k = (f.shows k refl, f.good k)
  put_all-shows ((j, v) ∷ ps) m cs f k =
      put_all-shows ps (Keyed.set j v m) (Keyed.set j (renewed v (Keyed.get j cs)) cs)
        (put-Follows j v ps m cs f) k
