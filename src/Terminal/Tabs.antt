-- ===== src/Terminal/Tabs.antt =====
-- The class `MultiTerminalView` of web/src/pages/home-page/MultiTerminalView.tsx: the tabs. A
-- controller stands as its id, which is only compared.
pub mod Selection
use web_ssh_tool.Common.{
  ℕ, zero, suc, ◌+◌, Bool, true, false, ◌||◌, Option, none, some, List, [], ◌∷◌, ◌++◌, any,
  get_elem?, head?, if◌then◌else◌, ◌==◌,
}
use web_ssh_tool.Terminal.{Request, shell_close}

-- `_controllers`, which is the array of the state too, and the selected controller. `disposed` are
-- those that `dispose` was called on, and `created` counts the calls of the constructor.
pub record View : Type 0 where
  pub controllers : List ℕ
  pub controller : Option ℕ
  pub disposed : List ℕ
  pub created : ℕ

-- The constructor, with the id that `makeId` gave.
unfoldable pub create : ℕ → View
create id = record { controllers = id ∷ []; controller = some id; disposed = []; created = 1 }

-- `this._controllers.find(v => v.id === id)` finds one.
abbrev pub has : ℕ → List ℕ → Bool
has id controllers = any (λ c. c == id) controllers

-- The loop of `makeUniqueId`, which tries `n` more of the ids that `makeId` gives.
unfoldable pub find_unique : ℕ → (ℕ → ℕ) → List ℕ → Option ℕ
find_unique zero ids controllers = none
find_unique (suc n) ids controllers =
    let again = find_unique n (λ i. ids (suc i)) controllers in
    if has (ids zero) controllers then again else some (ids zero)

unfoldable pub make_unique_id : (ℕ → ℕ) → List ℕ → Option ℕ
make_unique_id ids controllers = find_unique 5 ids controllers

add_with : Option ℕ → View → View
add_with none s = s
add_with (some id) s = record s {
  controllers = s.controllers ++ id ∷ [];
  controller = some id;
  created = s.created + 1;
}

unfoldable pub add : (ℕ → ℕ) → View → View
unfolding add_with
add ids s = add_with (make_unique_id ids s.controllers) s

-- `splice(index, 1)`.
unfoldable pub splice : ℕ → List ℕ → List ℕ
splice i [] = []
splice zero (c ∷ cs) = cs
splice (suc i) (c ∷ cs) = c ∷ splice i cs

-- `indexOf(controller)`; -1 is `none`.
unfoldable pub index_of : ℕ → List ℕ → Option ℕ
index_of c [] = none
index_of c (d ∷ ds) =
    let rest = index_of c ds in
    if d == c then some 0 else elim rest [ none ↦ none | some i ↦ some (suc i) ]

-- `this.state.controller?.id === controller.id`
abbrev pub is_selected : ℕ → Option ℕ → Bool
is_selected c none = false
is_selected c (some d) = d == c

-- `removeAt`, of the controller `c` that stands at the index.
unfoldable pub remove_at : ℕ → ℕ → View → View
unfolding splice
remove_at index c s =
    let rest = splice index s.controllers in
    record s {
      controllers = rest;
      controller = if is_selected c s.controller then head? rest else s.controller;
      disposed = c ∷ s.disposed;
    }

-- `if (index > -1)`.
remove_with : Option ℕ → ℕ → View → View
unfolding remove_at
remove_with none c s = s
remove_with (some index) c s = remove_at index c s

unfoldable pub remove_of : ℕ → View → View
unfolding remove_with index_of
remove_of c s = remove_with (index_of c s.controllers) c s

select_with : Option ℕ → View → View
select_with none s = s
select_with (some c) s = record s { controller = some c }

-- `onSelected` of the tab bar, which has a tab for each controller and no other.
unfoldable pub select : ℕ → View → View
unfolding select_with
select i s = select_with (get_elem? s.controllers i) s

-- `componentWillUnmount`.
unfoldable pub unmount : View → View
unmount s = record s { disposed = s.controllers ++ s.disposed }

pub data Act : Type 0 where
  add_tab : (ℕ → ℕ) → Act
  remove_tab select_tab : ℕ → Act

unfoldable pub step : Act → View → View
unfolding add remove_of select
step (add_tab ids) s = add ids s
step (remove_tab c) s = remove_of c s
step (select_tab i) s = select i s

unfoldable pub run : List Act → View → View
run [] s = s
run (a ∷ as') s = run as' (step a s)
