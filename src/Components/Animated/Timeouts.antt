-- ===== src/Components/Animated/Timeouts.antt =====
-- The end of a timeout of a `Wrap` (web/src/components/AnimatedList.tsx).
use web_ssh_tool.Common.{
  ℕ, ◌≡◌, refl, true, Option, none, some, List, arith, if◌then◌else◌, ◌==◌, ap, sym, ◌∙◌, ==_iff,
  Bool-cases, inl, inr,
}
use web_ssh_tool.Common.Keyed
use web_ssh_tool.Common.Keyed.{Distinct}
use web_ssh_tool.Components.Animated.{entered, Timer, to_entered, to_exit, Child, fire}
use web_ssh_tool.Components.Animated.Rendered.{visible, IsGood}

module _ {V : Type 0} where
  -- A child when the animation is over.
  abbrev pub settled : Option V → Option (Child V)
  settled none = none
  settled (some v) = some (record { node = v; state = entered; timer = none; existed = true })

  settled_lem :
      (c : Child V) → IsGood (some c) → c.timer ≡ none → settled (visible (some c)) ≡ some c
  settled_lem c g e = elim (Bool-cases c.existed) [ inl x ↦ ground arith | inr x ↦ ground arith ]

  settled_entering :
      (c : Child V)
      → IsGood (some c)
      → c.timer ≡ some to_entered
      → settled (visible (some c)) ≡ some (record c { state = entered; timer = none })
  settled_entering c g e = ground arith

  settled_leaving :
      (c : Child V) → IsGood (some c) → c.timer ≡ some to_exit → settled (visible (some c)) ≡ none
  settled_leaving c g e = ground arith

  get_self :
      (k j : ℕ) (o : Option (Child V)) (cs : List (ℕ × Child V))
      → Keyed.get k cs ≡ o
      → Keyed.get j cs ≡ (if k == j then o else Keyed.get j cs)
  get_self k j o cs e = elim (Bool-cases (k == j)) [
    | inl t ↦ rw t (ap (λ (n : ℕ). Keyed.get n cs) (sym ((==_iff k j).0 t)) ∙ e)
    | inr t ↦ rw t
  ]

  -- The end of a timeout settles its child and changes no other one.
  pub get-fire :
      (k j : ℕ) (o : Option (Child V)) (cs : List (ℕ × Child V))
      → Keyed.get k cs ≡ o
      → Distinct cs
      → IsGood o
      → Keyed.get j (fire k o cs) ≡ (if k == j then settled (visible o) else Keyed.get j cs)
  unfolding fire
  get-fire k j none cs e d g = get_self k j none cs e
  get-fire k j (some c) cs e d g = fired c.timer refl
    where
      fired :
          (t : Option Timer)
          → c.timer ≡ t
          → Keyed.get j (fire k (some c) cs)
            ≡ (if k == j then settled (visible (some c)) else Keyed.get j cs)
      fired none h = rw (h, settled_lem c g h) (get_self k j (some c) cs e)
      fired (some to_entered) h = rw (h, settled_entering c g h) (Keyed.get-set k j _ cs)
      fired (some to_exit) h = rw (h, settled_leaving c g h) (Keyed.get-delete k j cs d)

  pub Distinct-fire :
      (k : ℕ) (o : Option (Child V)) (cs : List (ℕ × Child V))
      → Distinct cs
      → Distinct (fire k o cs)
  unfolding fire
  Distinct-fire k none cs d = d
  Distinct-fire k (some c) cs d = fired c.timer refl
    where
      fired : (t : Option Timer) → c.timer ≡ t → Distinct (fire k (some c) cs)
      fired none h = rw h d
      fired (some to_entered) h = rw h (Keyed.Distinct-set k _ cs d)
      fired (some to_exit) h = rw h (Keyed.Distinct-delete k cs d)

  pub settled-IsGood : (o : Option V) → IsGood (settled o)
  settled-IsGood none = tt
  settled-IsGood (some v) = inl (refl, refl)

  pub visible-settled : (o : Option V) → visible (settled o) ≡ o
  visible-settled none = refl
  visible-settled (some v) = refl
