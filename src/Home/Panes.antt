-- ===== src/Home/Panes.antt =====
-- The layout, its setting and its transitions, and the resizing (HomePage.tsx).
use web_ssh_tool.Common.{◌≤◌, ◌≡◌, ◌≢◌, refl, sym, ◌∙◌, ◌⊎◌, inl, inr, List, [], ◌∷◌, arith}
use web_ssh_tool.Common.Text.{eq_text}
use web_ssh_tool.Settings.{set_layout, string_key_callback}
use web_ssh_tool.Home.{
  Layout, both, terminal, file_explorer, initial_layout, Page, create, choose, Element, first_wrap,
  second_wrap, placeholder, syncs, transition_end, Resize, Mouse, down, up, longer, shorter,
  on_mouse, on_mice,
}

-- A layout that was chosen is kept in the settings: a page that is opened later with the same
-- storage starts in it, with nothing to be moved, whatever the layout was before; and the page
-- that it was chosen in still shows what it showed.
pub create-choose :
    (l : Layout) (p : Page)
    → (create (choose l p).storage
        ≡ record { storage = (choose l p).storage; layout = l; delay_layout = l; last_layout = l })
      × ((choose l p).delay_layout ≡ p.delay_layout)
unfolding create choose initial_layout set_layout string_key_callback eq_text
create-choose both p = (refl, refl)
create-choose terminal p = (refl, refl)
create-choose file_explorer p = (refl, refl)

-- The page shows the chosen layout, or some element's transition brings it there.
Settles : Page → Type 0
Settles p =
    (p.delay_layout ≡ p.layout) ⊎ ((e : Element) × ((transition_end e p).delay_layout ≡ p.layout))

settles : (l d : Layout) (p : Page) → p.layout ≡ l → p.delay_layout ≡ d → Settles p
unfolding Settles transition_end syncs
settles both both p hl hd = inl (hd ∙ sym hl)
settles terminal both p hl hd = inr (second_wrap, ground arith)
settles file_explorer both p hl hd = inr (first_wrap, ground arith)
settles l terminal p hl hd = inr (placeholder, ground arith)
settles l file_explorer p hl hd = inr (placeholder, ground arith)

-- A page that shows another layout than the chosen one has an element whose transition, when it
-- ends, brings it there at once; and no transition brings it anywhere else.
pub transition_end-layout :
    (p : Page)
    → ((p.delay_layout ≡ p.layout)
        ⊎ ((e : Element) × ((transition_end e p).delay_layout ≡ p.layout)))
      × ((e : Element)
          → ((transition_end e p).delay_layout ≡ p.layout)
            ⊎ ((transition_end e p).delay_layout ≡ p.delay_layout))
unfolding Settles transition_end
transition_end-layout p = (settles p.layout p.delay_layout p refl refl, λ e. ground arith)

enough : (m : Mouse) (r : Resize) → 300 ≤ r.length → 300 ≤ (on_mouse m r).length
unfolding on_mouse
enough down r h = h
enough up r h = h
enough (longer n) r h = ground arith
enough (shorter n) r h = ground arith

pressed : (m : Mouse) (r : Resize) → (r.enable ≢ 0) ⊎ ((on_mouse m r).length ≡ r.length)
unfolding on_mouse
pressed down r = inr refl
pressed up r = inr refl
pressed (longer n) r = ground arith
pressed (shorter n) r = ground arith

all_enough : (ms : List Mouse) (r : Resize) → 300 ≤ r.length → 300 ≤ (on_mice ms r).length
unfolding on_mice
all_enough [] r h = h
all_enough (m ∷ ms) r h = all_enough ms (on_mouse m r) (enough m r h)

-- From a length of at least 300, as the first one is, no movements and presses of the mouse bring
-- the length under 300, and none changes it while nothing is pressed.
pub on_mice-length :
    (ms : List Mouse) (m : Mouse) (r : Resize)
    → 300 ≤ r.length
    → (300 ≤ (on_mice ms r).length)
      × (((on_mice ms r).enable ≢ 0) ⊎ ((on_mouse m (on_mice ms r)).length ≡ (on_mice ms r).length))
on_mice-length ms m r h = (all_enough ms r h, pressed m (on_mice ms r))
