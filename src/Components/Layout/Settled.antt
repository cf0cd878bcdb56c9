-- ===== src/Components/Layout/Settled.antt =====
-- What the frames of LayoutBuilder.tsx come to.
use web_ssh_tool.Common.{
  All, ℕ, ◌+◌, ◌≡◌, ◌<◌, ◌≤◌, ◌⊎◌, refl, sym, ap, ◌∙◌, Bool, true, false, Option, none, some, List,
  [], ◌∷◌, ◌++◌, ◌==◌, arith, if◌then◌else◌, Bool-cases, inl, inr,
}
use web_ssh_tool.Components.Layout.{
  Pixels, Layout, create, is_current, unobserve, observe, update_ref, resize, differs, measure,
  Event, frame, rerender, ref_changed, observed_entries, unmount, page_changed, next_frame, step,
  run,
}

same_pixels : (s p : Pixels) → s.height ≡ p.height → s.width ≡ p.width → s ≡ p
same_pixels s p h w = rw (h, w) refl

same_size : (s : Option Pixels) (p : Pixels) → differs s p ≡ false → s ≡ some p
unfolding differs
same_size none p h = cc
same_size (some s) p h = ap some (same_pixels s p (ground arith) (ground arith))

-- The layout has measured: its size is that of the element, and either it was so before or there
-- is a new rendering.
pub record Measured (e : ℕ) (l l' : Layout) : Type 0 where
  pub size : l'.size ≡ some (l.page e)
  pub current : l'.current ≡ l.current
  pub page : l'.page ≡ l.page
  pub built : l.built ≤ l'.built
  pub renders : (l.size ≡ some (l.page e)) ⊎ (l.built < l'.built)

one_measure :
    (b : Bool) (e : ℕ) (l : Layout)
    → differs l.size (l.page e) ≡ b
    → Measured e l (if b then record l { size = some (l.page e); built = l.built + 1 } else l)
one_measure true e l d = record {
  size = refl;
  current = refl;
  page = refl;
  built = omega arith;
  renders = inr (omega arith);
}
one_measure false e l d = record {
  size = same_size l.size (l.page e) d;
  current = refl;
  page = refl;
  built = omega arith;
  renders = inl (same_size l.size (l.page e) d);
}

measure-Measured : (e : ℕ) (l : Layout) → Measured e l (measure e l)
unfolding measure
measure-Measured e l = one_measure (differs l.size (l.page e)) e l refl

-- One frame for each element that is to be measured.
abbrev pub frames_of : List ℕ → List Event
frames_of [] = []
frames_of (e ∷ es) = frame ∷ frames_of es

step_frame :
    (l : Layout) (e : ℕ) (es : List ℕ)
    → l.frames ≡ e ∷ es
    → step frame l ≡ measure e (record l { frames = es })
unfolding step next_frame
step_frame l e es h = rw h refl

measure_frames : (e : ℕ) (l : Layout) → (measure e l).frames ≡ l.frames
unfolding measure
measure_frames e l = ground arith

run_first : (l l' : Layout) (es : List Event) → step frame l ≡ l' → run (frame ∷ es) l ≡ run es l'
unfolding run
run_first l l' es h = ap (λ x. run es x) h

reframed :
    (e : ℕ) (fs : List ℕ) (l l' : Layout)
    → Measured e (record l { frames = fs }) l'
    → Measured e l l'
reframed e fs l l' m = record {
  size = m.size;
  current = m.current;
  page = m.page;
  built = m.built;
  renders = m.renders;
}

-- Two measures in a row are one of the second element.
chain : (e f : ℕ) (l m n : Layout) → Measured f l m → Measured e m n → Measured e l n
chain e f l m n x y =
    let here : some (m.page e) ≡ some (l.page e) = ap (λ p. some (p e)) x.page in
    record {
      size = y.size ∙ here;
      current = y.current ∙ x.current;
      page = y.page ∙ x.page;
      built = omega (arith, x.built, y.built);
      renders = elim y.renders [
        | inr lt ↦ inr (omega (arith, x.built, lt))
        | inl s ↦ elim x.renders [
          | inr lt ↦ inr (omega (arith, y.built, lt))
          | inl t ↦ inl (t ∙ sym x.size ∙ s ∙ here)
        ]
      ];
    }

one_frame : (e : ℕ) (es : List ℕ) (l : Layout) → l.frames ≡ e ∷ es → Measured e l (step frame l)
one_frame e es l h = rw (step_frame l e es h) (
    reframed e es l (measure e (record l { frames = es }))
      (measure-Measured e (record l { frames = es })))

rest_frames : (e : ℕ) (es : List ℕ) (l : Layout) → l.frames ≡ e ∷ es → (step frame l).frames ≡ es
rest_frames e es l h = rw (step_frame l e es h) (measure_frames e (record l { frames = es }))

-- All frames that are pending run, and the last one measures the element.
drained :
    (e : ℕ) (es : List ℕ) (l : Layout)
    → l.frames ≡ es ++ e ∷ []
    → Measured e l (run (frames_of (es ++ e ∷ [])) l)
unfolding run
drained e [] l h = one_frame e [] l h
drained e (f ∷ es) l h =
    chain e f l (step frame l) (run (frames_of (es ++ e ∷ [])) (step frame l))
      (one_frame f (es ++ e ∷ []) l h)
      (drained e es (step frame l) (rest_frames f (es ++ e ∷ []) l h))

-- The observer tells of the element, and the frames that are pending then run.
abbrev pub settle : Layout → Layout
settle l = let l' = step (observed_entries 1) l in run (frames_of l'.frames) l'

resize_frames :
    (l : Layout) (e : ℕ)
    → l.current ≡ some e
    → step (observed_entries 1) l ≡ record l { frames = l.frames ++ e ∷ [] }
unfolding step resize
resize_frames l e h = rw h refl

pub settle-Measured : (l : Layout) (e : ℕ) → l.current ≡ some e → Measured e l (settle l)
settle-Measured l e h =
    let m : Layout = record l { frames = l.frames ++ e ∷ [] } in
    rw (resize_frames l e h)
      (reframed e (l.frames ++ e ∷ []) l (run (frames_of m.frames) m) (drained e l.frames m refl))

-- The element of the layout is the one that the observer watches.
abbrev watched : Layout → List ℕ
watched l = observe l.current []

unobserve_own : (c : Option ℕ) → unobserve c (observe c []) ≡ []
unobserve_own none = refl
unobserve_own (some e) = ground arith

-- The component stays mounted.
abbrev pub Stays : Event → Type 0
Stays unmount = ⊥
Stays _ = Unit

update_watches :
    (ref : Option ℕ) (l : Layout)
    → l.observed ≡ watched l
    → (update_ref ref l).observed ≡ watched (update_ref ref l)
unfolding update_ref
update_watches ref l h = elim (Bool-cases (is_current ref l.current)) [
  | inl b ↦ rw b h
  | inr b ↦ rw b (rw (h, unobserve_own l.current) refl)
]

measure_watches :
    (e : ℕ) (l : Layout)
    → ((measure e l).observed ≡ l.observed) × ((measure e l).current ≡ l.current)
unfolding measure
measure_watches e l = (ground arith, ground arith)

frame_watches :
    (fs : List ℕ) (l : Layout)
    → l.observed ≡ watched l
    → let l' : Layout = elim fs [ [] ↦ l | (e ∷ es) ↦ measure e (record l { frames = es }) ] in
      l'.observed ≡ watched l'
frame_watches [] l h = h
frame_watches (e ∷ es) l h =
    let (o, c) = measure_watches e (record l { frames = es }) in
    o ∙ h ∙ ap (λ x. observe x []) (sym c)

resize_watches :
    (c : Option ℕ) (l : Layout)
    → l.observed ≡ watched l
    → let l' : Layout = elim c [ none ↦ l | some e ↦ record l { frames = l.frames ++ e ∷ [] } ] in
      l'.observed ≡ watched l'
resize_watches none l h = h
resize_watches (some e) l h = h

entries_watch :
    (b : Bool) (l : Layout)
    → l.observed ≡ watched l
    → let l' = if b then l else resize l in l'.observed ≡ watched l'
unfolding resize
entries_watch true l h = h
entries_watch false l h = resize_watches l.current l h

step_watches :
    (i : Event) (l : Layout)
    → Stays i
    → l.observed ≡ watched l
    → (step i l).observed ≡ watched (step i l)
unfolding step next_frame
step_watches (ref_changed ref) l t h = update_watches ref l h
step_watches (observed_entries n) l t h = entries_watch (n == 0) l h
step_watches frame l t h = frame_watches l.frames l h
step_watches rerender l t h = h
step_watches unmount l t h = absurd t
step_watches (page_changed page) l t h = h

run_watches :
    (is : List Event) (l : Layout)
    → All Stays is
    → l.observed ≡ watched l
    → (run is l).observed ≡ watched (run is l)
unfolding run
run_watches [] l t h = h
run_watches (i ∷ is) l t h = run_watches is (step i l) t.1 (step_watches i l t.0 h)

-- After any events in the life of a layout, the observer watches its current element and no other;
-- and once it has told of the element and the frames that are pending then have run, the size of the
-- layout is that of the element.
pub size_settles :
    (page : ℕ → Pixels) (is : List Event) (e : ℕ)
    → All Stays is
    → (run is (create page)).current ≡ some e
    → ((run is (create page)).observed ≡ e ∷ [])
      × ((settle (run is (create page))).size ≡ some ((run is (create page)).page e))
unfolding create
size_settles page is e t h = (
  run_watches is (create page) t refl ∙ rw h refl,
  (settle-Measured (run is (create page)) e h).size,
)
