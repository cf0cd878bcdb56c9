-- ===== src/Components/Layout.antt =====
-- `LayoutBuilder` of web/src/components/LayoutBuilder.tsx, where the browser has a ResizeObserver.
pub mod Settled
mod Tests
use web_ssh_tool.Common.{
  ℕ, ◌+◌, Bool, true, false, not, ◌&&◌, ◌||◌, Option, none, some, List, [], ◌∷◌, ◌++◌, keep, ◌==◌,
  if◌then◌else◌,
}

pub record Pixels : Type 0 where
  pub height : ℕ
  pub width : ℕ

-- `_current` and the elements that the observer watches, `state.size`, the elements that the pending
-- frames measure, the oldest first, how often `builder` was called, and the elements of the page.
pub record Layout : Type 0 where
  pub current : Option ℕ
  pub observed : List ℕ
  pub size : Option Pixels
  pub frames : List ℕ
  pub built : ℕ
  pub page : ℕ → Pixels

-- The constructor and the first `render`.
unfoldable pub create : (ℕ → Pixels) → Layout
create page = record {
  current = none;
  observed = [];
  size = none;
  frames = [];
  built = 1;
  page = page;
}

abbrev pub is_current : Option ℕ → Option ℕ → Bool
is_current none none = true
is_current (some a) (some b) = a == b
is_current _ _ = false

abbrev pub unobserve : Option ℕ → List ℕ → List ℕ
unobserve none observed = observed
unobserve (some e) observed = keep (λ x. not (x == e)) observed

abbrev pub observe : Option ℕ → List ℕ → List ℕ
observe none observed = observed
observe (some e) observed = e ∷ observed

-- `_updateRef`.
unfoldable pub update_ref : Option ℕ → Layout → Layout
update_ref ref l =
    if is_current ref l.current
    then l
    else record l { current = ref; observed = observe ref (unobserve l.current l.observed) }

-- `_resize`.
unfoldable pub resize : Layout → Layout
resize l = elim l.current [ none ↦ l | some e ↦ record l { frames = l.frames ++ e ∷ [] } ]

-- `this.state.size?.height !== current.clientHeight || …`
unfoldable pub differs : Option Pixels → Pixels → Bool
differs none p = true
differs (some s) p = not (s.height == p.height) || not (s.width == p.width)

-- The frame of an element; a new state calls `builder` again.
unfoldable pub measure : ℕ → Layout → Layout
measure e l =
    if differs l.size (l.page e)
    then record l { size = some (l.page e); built = l.built + 1 }
    else l

-- What React, the observer, the browser's frames, the parent and the page do. The observer tells of
-- the elements that it watches, by their number.
pub data Event : Type 0 where
  ref_changed : Option ℕ → Event
  observed_entries : ℕ → Event
  frame rerender unmount : Event
  page_changed : (ℕ → Pixels) → Event

unfoldable pub next_frame : Layout → Layout
unfolding measure
next_frame l = elim l.frames [ [] ↦ l | (e ∷ es) ↦ measure e (record l { frames = es }) ]

unfoldable pub step : Event → Layout → Layout
unfolding update_ref resize next_frame
step (ref_changed ref) l = update_ref ref l
step (observed_entries n) l = if n == 0 then l else resize l
step frame l = next_frame l
step rerender l = record l { built = l.built + 1 }
step unmount l = record l { observed = [] }
step (page_changed page) l = record l { page = page }

unfoldable pub run : List Event → Layout → Layout
unfolding step
run [] l = l
run (e ∷ es) l = run es (step e l)
