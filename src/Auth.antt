-- ===== src/Auth.antt =====
-- The class `Auth` of web/src/pages/SignInPage.tsx: requests over the socket and the messages that
-- come back. The children model the URLs that it builds.
pub mod Uri
pub mod Urls
pub mod Steps
pub mod Correlation
pub mod Wire
pub mod Transfer
mod Tests
use web_ssh_tool.Common.{
  ℕ, ◌+◌, String, Option, none, some, List, [], ◌∷◌, ◌++◌, if◌then◌else◌, ◌==◌,
}
use web_ssh_tool.Common.Keyed

-- `started` are the calls of `rest` that wait for `encodeMessage`, by their tags; `sent` is what
-- `ws.send` was given, in order.
pub record Auth (C Q : Type 0) : Type 0 where
  pub tag : ℕ
  pub callbacks : List (ℕ × C)
  pub started : List ℕ
  pub sent : List (ℕ × Q)

-- The three targets of events; an event object has one of the keys, or none of them.
pub data Notice (D : Type 0) : Type 0 where
  shell : String → D → Notice D
  watch : String → D → Notice D
  notification : D → Notice D
  unknown : Notice D

-- The decoded object: `undefined`, one with a tag, one with an event, or neither.
pub data Incoming (R D : Type 0) : Type 0 where
  undecodable : Incoming R D
  tagged : ℕ → R → Incoming R D
  event : Notice D → Incoming R D
  neither : Incoming R D

-- What a message makes the class do.
pub data Effect (C R D : Type 0) : Type 0 where
  callback : C → R → Effect C R D
  shell_event : String → D → Effect C R D
  watch_event : String → D → Effect C R D
  change_event : D → Effect C R D

pub remove : ℕ → List ℕ → List ℕ
remove t [] = []
remove t (u ∷ us) = let rest = remove t us in if u == t then us else u ∷ rest

module _ {C Q : Type 0} where
  -- `const tag = this._tag++`, and the call of `encodeMessage`.
  pub rest_start : Auth C Q → Auth C Q × ℕ
  rest_start a = (record a { tag = a.tag + 1; started = a.tag ∷ a.started }, a.tag)

  -- After `await encodeMessage(…)`: the callback is set and the frame is sent.
  pub rest_send : ℕ → C → Q → Auth C Q → Auth C Q
  rest_send t c frame a = record a {
    callbacks = Keyed.set t c a.callbacks;
    started = remove t a.started;
    sent = a.sent ++ (t, frame) ∷ [];
  }

  -- `encodeMessage` threw: the promise of `rest` is rejected, and nothing is sent.
  pub rest_fail : ℕ → Auth C Q → Auth C Q
  rest_fail t a = record a { started = remove t a.started }

module _ {C R D : Type 0} where
  call_back : Option C → R → List (Effect C R D)
  call_back none r = []
  call_back (some c) r = callback c r ∷ []

  dispatch : Notice D → List (Effect C R D)
  dispatch (shell id d) = shell_event id d ∷ []
  dispatch (watch id d) = watch_event id d ∷ []
  dispatch (notification d) = change_event d ∷ []
  dispatch unknown = []

module _ {C Q R D : Type 0} where
  -- The listener of `message`.
  pub on_message : Incoming R D → Auth C Q → Auth C Q × List (Effect C R D)
  unfolding call_back dispatch
  on_message undecodable a = (a, [])
  on_message (tagged t r) a =
      (record a { callbacks = Keyed.delete t a.callbacks }, call_back (Keyed.get t a.callbacks) r)
  on_message (event n) a = (a, dispatch n)
  on_message neither a = (a, [])
