-- ===== src/Explorer/Frame/Page.antt =====
-- The page that the frame of PreviewDialog.tsx shows, and the file that it was given.
use web_ssh_tool.Common.{
  ℕ, ◌≡◌, ◌≢◌, refl, true, false, Option, none, some, List, arith, Bool-cases, Option-cases, inl,
  inr,
}
use web_ssh_tool.Common.Keyed
use web_ssh_tool.Common.Keyed.{Distinct}
use web_ssh_tool.Common.Text.{Text}
use web_ssh_tool.Explorer.Actions.{same_path}
use web_ssh_tool.Explorer.Frame.{
  Frame, Event, show, url_ready, url_failed, frame_loaded, press_refresh, is_current, cleanup,
  start, on_url, step, create,
}

module _ {U : Type 0} (Answers : Text → U → Type 0) where
  -- A URL that comes is one for the path that was asked for, and the call for the path that is
  -- shown does not fail.
  abbrev pub Honest : Event U → Frame U → Type 0
  Honest (url_ready i u) w = (p : Text) → Keyed.get i w.waiting ≡ some p → Answers p u
  Honest (url_failed i) w = w.current ≢ some i
  Honest _ w = Unit

  pub data Reach (w : Frame U) : Frame U → Type 0 where
    here : Reach w w
    next : {v : Frame U} → Reach w v → (e : Event U) → Honest e v → Reach w (step e v)

  -- The frame has a URL of its own path.
  abbrev pub Shows : Option Text → Option U → Type 0
  Shows (some p) (some u) = Answers p u
  Shows none none = Unit
  Shows _ _ = ⊥

  record IsSound (w : Frame U) : Type 0 where
    distinct : Distinct w.waiting
    empty : w.current ≡ none → (w.path ≡ none) × (w.url ≡ none)
    asks :
        (i : ℕ) (p : Text) → w.current ≡ some i → Keyed.get i w.waiting ≡ some p → w.path ≡ some p
    shows : (i : ℕ) → w.current ≡ some i → Keyed.get i w.waiting ≡ none → Shows w.path w.url

  start-IsSound :
      (path : Option Text) (w : Frame U)
      → Distinct w.waiting
      → w.current ≡ none
      → IsSound (start path w)
  unfolding start
  start-IsSound none w d c = record {
    distinct = d;
    empty = λ _. (refl, refl);
    asks = λ i p h k. cc;
    shows = λ i h k. tt;
  }
  start-IsSound (some q) w d c = record {
    distinct = Keyed.Distinct-set w.next q w.waiting d;
    empty = λ h. cc;
    asks = λ i p h k. ground (arith, Keyed.get-set w.next i q w.waiting);
    shows = λ i h k. ground (arith, Keyed.get-set w.next i q w.waiting);
  }

  cleaned : (w : Frame U) → IsSound w → Distinct (cleanup w).waiting × ((cleanup w).current ≡ none)
  unfolding cleanup
  cleaned w s = elim (Option-cases w.current) [
    | inl e ↦ rw e (s.distinct, refl)
    | inr (i, e) ↦ rw e (s.distinct, refl)
  ]

  -- A call that is over and is not the current one.
  other-IsSound :
      (i : ℕ) (w : Frame U)
      → w.current ≢ some i
      → IsSound w
      → IsSound (record w { waiting = Keyed.delete i w.waiting })
  other-IsSound i w n s = record {
    distinct = Keyed.Distinct-delete i w.waiting s.distinct;
    empty = s.empty;
    asks = λ j p h k. ground (arith, s.asks j p, Keyed.get-delete i j w.waiting s.distinct);
    shows = λ j h k. ground (arith, s.shows j, Keyed.get-delete i j w.waiting s.distinct);
  }

  own-IsSound :
      (i : ℕ) (p : Text) (u : U) (w : Frame U)
      → w.current ≡ some i
      → Keyed.get i w.waiting ≡ some p
      → Answers p u
      → IsSound w
      → IsSound (record w { waiting = Keyed.delete i w.waiting; url = some u })
  own-IsSound i p u w c e a s = record {
    distinct = Keyed.Distinct-delete i w.waiting s.distinct;
    empty = λ h. cc;
    asks = λ j q h k. ground (arith, s.asks j q, Keyed.get-delete i j w.waiting s.distinct);
    shows = λ j h k. rw (s.asks i p c e) a;
  }

  is_current_eq : (c : Option ℕ) (i : ℕ) → is_current c i ≡ true → c ≡ some i
  is_current_eq none i h = cc
  is_current_eq (some j) i h = ground arith

  is_current_ne : (c : Option ℕ) (i : ℕ) → is_current c i ≡ false → c ≢ some i
  is_current_ne none i h = λ e. cc
  is_current_ne (some j) i h = λ e. ground arith

  on_url-IsSound :
      (o : Option Text) (i : ℕ) (u : U) (w : Frame U)
      → Keyed.get i w.waiting ≡ o
      → ((p : Text) → o ≡ some p → Answers p u)
      → IsSound w
      → IsSound (on_url o i u w)
  unfolding on_url
  on_url-IsSound none i u w e a s = s
  on_url-IsSound (some p) i u w e a s = elim (Bool-cases (is_current w.current i)) [
    | inl t ↦ rw t (own-IsSound i p u w (is_current_eq w.current i t) e (a p refl) s)
    | inr t ↦ rw t (other-IsSound i w (is_current_ne w.current i t) s)
  ]

  step-IsSound : (e : Event U) (w : Frame U) → Honest e w → IsSound w → IsSound (step e w)
  unfolding step
  step-IsSound (show path) w h s = elim (Bool-cases (same_path w.path path)) [
    | inl e ↦ rw e s
    | inr e ↦ rw e (start-IsSound path (cleanup w) (cleaned w s).0 (cleaned w s).1)
  ]
  step-IsSound (url_ready i u) w h s = on_url-IsSound (Keyed.get i w.waiting) i u w refl h s
  step-IsSound (url_failed i) w h s = other-IsSound i w h s
  step-IsSound frame_loaded w h s = record {
    distinct = s.distinct;
    empty = s.empty;
    asks = s.asks;
    shows = s.shows;
  }
  step-IsSound press_refresh w h s = elim (Bool-cases w.loading) [
    | inl e ↦
        rw e (record { distinct = s.distinct; empty = s.empty; asks = s.asks; shows = s.shows })
    | inr e ↦
        rw e (record { distinct = s.distinct; empty = s.empty; asks = s.asks; shows = s.shows })
  ]

  create-IsSound : IsSound create
  unfolding create
  create-IsSound = record {
    distinct = tt;
    empty = λ _. (refl, refl);
    asks = λ i p h k. cc;
    shows = λ i h k. cc;
  }

  Reach-IsSound : {v w : Frame U} → Reach v w → IsSound v → IsSound w
  Reach-IsSound here s = s
  Reach-IsSound (next {v} r e h) s = step-IsSound e v h (Reach-IsSound r s)

  -- No call for the current path is under way.
  abbrev pub Rests : Option ℕ → List (ℕ × Text) → Type 0
  Rests none waiting = Unit
  Rests (some i) waiting = Keyed.get i waiting ≡ none

  -- However paths change and URLs come, late ones for earlier paths and failures of such calls
  -- included: once no URL is awaited for the path that is shown, the frame has a URL for this path,
  -- and it has none where there is no path.
  pub frame-Shows : (w : Frame U) → Reach create w → Rests w.current w.waiting → Shows w.path w.url
  frame-Shows w r q = of_current w.current refl q
    where
      s : IsSound w
      s = Reach-IsSound r create-IsSound

      of_current : (c : Option ℕ) → w.current ≡ c → Rests c w.waiting → Shows w.path w.url
      of_current none e h = rw ((s.empty e).0, (s.empty e).1) tt
      of_current (some i) e h = s.shows i e h
