-- ===== src/Components/Animated.antt =====
-- web/src/components/AnimatedList.tsx: a list whose children stay for a while when they are gone from
-- the properties, with the component `Wrap` of each child and its timer. Keys are numbers here.
pub mod Rendered
pub mod Timeouts
pub mod Shown
pub mod Settled
mod Tests
use web_ssh_tool.Common.{
  ℕ, Bool, true, false, ◌||◌, Option, none, some, List, [], ◌∷◌, if◌then◌else◌, ◌==◌,
}
use web_ssh_tool.Common.Keyed

pub data AnimationState : Type 0 where
  enter entering entered exit : AnimationState

-- What the timeout of a `Wrap` does when it is over.
pub data Timer : Type 0 where
  to_entered to_exit : Timer

module _ (V : Type 0) where
  -- An entry of `_children` with the `Wrap` that is rendered for it: its state, its timer, and the
  -- property `isExisted` that it was given last.
  pub record Child : Type 0 where
    pub node : V
    pub state : AnimationState
    pub timer : Option Timer
    pub existed : Bool

  -- `_origin` holds all keys for the first rendering and none later, so it is an argument of
  -- `mount_wrap`. `children` of the properties is `props`.
  pub record AnimatedList : Type 0 where
    pub props : List (ℕ × V)
    pub children : List (ℕ × Child)

  -- A new value for `children`, or the end of the timeout of the child with the key.
  pub data Event : Type 0 where
    update : List (ℕ × V) → Event
    timeout : ℕ → Event

module _ {V : Type 0} where
  -- `new Set(children.map(value => value.listId)).has(key)`
  unfoldable pub has : ℕ → List (ℕ × V) → Bool
  has k [] = false
  has k ((j, v) ∷ ps) = (j == k) || has k ps

  -- `new Map(children.map(value => [value.listId, value.children]))`, from the entries on
  unfoldable pub from_entries : List (ℕ × V) → List (ℕ × V) → List (ℕ × V)
  from_entries m [] = m
  from_entries m ((k, v) ∷ ps) = from_entries (Keyed.set k v m) ps

  -- `Wrap.constructor` with `componentDidMount`, by `isOrigin`; the child is in the properties.
  unfoldable pub mount_wrap : Bool → V → Child V
  mount_wrap true v = record { node = v; state = entered; timer = none; existed = true }
  mount_wrap false v = record {
    node = v;
    state = entering;
    timer = some to_entered;
    existed = true;
  }

  -- `Wrap.componentDidUpdate`, with the old and the new `isExisted`.
  unfoldable pub updated : Bool → Bool → Child V → Child V
  updated true false c = record c { state = exit; timer = some to_exit; existed = false }
  updated false true c = record c { state = entering; timer = some to_entered; existed = true }
  updated old new c = c

  -- The rendering with the new properties, before `AnimatedList.componentDidUpdate`.
  unfoldable pub rendered : List (ℕ × V) → List (ℕ × Child V) → List (ℕ × Child V)
  rendered ps [] = []
  rendered ps ((k, c) ∷ cs) = (k, updated c.existed (has k ps) c) ∷ rendered ps cs

  -- `_children.set(listId, children)` and the rendering after it: a key that is new has a new `Wrap`.
  unfoldable pub renewed : V → Option (Child V) → Child V
  renewed v none = mount_wrap false v
  renewed v (some c) = record c { node = v }

  unfoldable pub put_all : List (ℕ × V) → List (ℕ × Child V) → List (ℕ × Child V)
  put_all [] cs = cs
  put_all ((k, v) ∷ ps) cs = put_all ps (Keyed.set k (renewed v (Keyed.get k cs)) cs)

  unfoldable pub mount_all : List (ℕ × V) → List (ℕ × Child V)
  mount_all [] = []
  mount_all ((k, v) ∷ m) = (k, mount_wrap true v) ∷ mount_all m

  -- The constructor and the first rendering.
  unfoldable pub create : List (ℕ × V) → AnimatedList V
  create ps = record { props = ps; children = mount_all (from_entries [] ps) }

  -- What the timeout of a child does: `onExit` deletes the child.
  unfoldable pub fire : ℕ → Option (Child V) → List (ℕ × Child V) → List (ℕ × Child V)
  fire k none cs = cs
  fire k (some c) cs = elim c.timer [
    | none ↦ cs
    | some to_entered ↦ Keyed.set k (record c { state = entered; timer = none }) cs
    | some to_exit ↦ Keyed.delete k cs
  ]

  unfoldable pub step : Event V → AnimatedList V → AnimatedList V
  step (update ps) l = record { props = ps; children = put_all ps (rendered ps l.children) }
  step (timeout k) l = record l { children = fire k (Keyed.get k l.children) l.children }

  unfoldable pub run : List (Event V) → AnimatedList V → AnimatedList V
  unfolding step
  run [] l = l
  run (e ∷ es) l = run es (step e l)

-- The height factor of `AnimatedList.Wrap`: whether it is `auto`, or 0.
pub has_height : AnimationState → Bool
has_height enter = false
has_height exit = false
has_height entering = true
has_height entered = true
