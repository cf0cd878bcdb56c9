-- ===== src/Compress.antt =====
-- web/src/workers/Compress.ts: the requests that wait for the compression worker. The children
-- model the codecs (CompressCommon.ts), the worker (Compress.worker.ts) and the callers.
pub mod Codec
pub mod Offload
pub mod Pending
pub mod Ledger
mod Tests
use web_ssh_tool.Common.{
  ℕ, ◌+◌, Bool, true, false, Option, none, some, List, [], ◌∷◌, ◌++◌, if◌then◌else◌,
}
use web_ssh_tool.Common.Keyed

-- The state of the module: `tag`, `suspend` and `closed`. `C` is the pair of functions that
-- settles the promise of one request.
pub record Pool (C : Type 0) : Type 0 where
  pub tag : ℕ
  pub suspend : List (ℕ × C)
  pub closed : Bool

-- A call of `resolve` or of `reject`.
pub data Call (C D E : Type 0) : Type 0 where
  resolve : C → D → Call C D E
  reject : C → E → Call C D E

-- What the worker posts; `error` is `none` for every falsy error.
pub record Message (D E : Type 0) : Type 0 where
  pub tag : ℕ
  pub payload : D
  pub error : Option E

abbrev pub start : {C : Type 0} → Pool C
start = record { tag = 0; suspend = []; closed = false }

module _ {C D E : Type 0} where
  pub settle : C → Message D E → Call C D E
  settle callback msg = elim msg.error [
    | none ↦ resolve callback msg.payload
    | some error ↦ reject callback error
  ]

  -- The body of `if (callback !== undefined)`.
  deliver : Option C → Message D E → Pool C → Pool C × List (Call C D E)
  deliver none msg p = (p, [])
  deliver (some callback) msg p =
      (record p { suspend = Keyed.delete msg.tag p.suspend }, settle callback msg ∷ [])

  pub on_message : Message D E → Pool C → Pool C × List (Call C D E)
  unfolding deliver
  on_message msg p = deliver (Keyed.get msg.tag p.suspend) msg p

  -- `suspend.forEach(…)`
  pub reject_all : E → List (ℕ × C) → List (Call C D E)
  reject_all e [] = []
  reject_all e ((t, callback) ∷ m) = reject callback e ∷ reject_all e m

  -- `e` is `new Error("web worker error")`.
  pub on_close : E → Pool C → Pool C × List (Call C D E)
  on_close e p = (record p { closed = true; suspend = [] }, reject_all e p.suspend)

module _ {C : Type 0} where
  pub request : C → Pool C → Pool C × Option ℕ
  request callback p =
      if p.closed
      then (p, none)
      else (record p { tag = p.tag + 1; suspend = Keyed.set p.tag callback p.suspend }, some p.tag)

-- What happens to the module, in the order in which the event loop runs it.
pub data Event (C D E : Type 0) : Type 0 where
  ask : C → Event C D E
  message : Message D E → Event C D E
  close : E → Event C D E

module _ {C D E : Type 0} where
  pub step : Event C D E → Pool C → Pool C × List (Call C D E)
  step (ask callback) p = ((request callback p).0, [])
  step (message msg) p = on_message msg p
  step (close e) p = on_close e p

  pub run : List (Event C D E) → Pool C → Pool C × List (Call C D E)
  run [] p = (p, [])
  run (e ∷ es) p = let (p', calls) = step e p in let (p'', more) = run es p' in (p'', calls ++ more)
