-- ===== src/Auth/Wire.antt =====
-- Requests of `Auth` (web/src/pages/SignInPage.tsx) as the frames that web/src/workers/Compress.ts
-- makes of them: `rest` and the listener with the encoding and the decoding that they await.
pub mod Answered
mod Tests
use web_ssh_tool.Common.{ℕ, ◌≡◌, Option, none, some, List, []}
use web_ssh_tool.Compress.Codec.{Result, ok, thrown, Platform}
use web_ssh_tool.Compress.Offload.{Way, Frame, encode_message, decode_message}
use web_ssh_tool.Auth.{
  Auth, Incoming, undecodable, tagged, Effect, rest_send, rest_fail, on_message,
}

-- The objects that go over the socket: `{ tag, request }`, `{ tag, response }`, and what the
-- listener reads of an object.
pub record Protocol (w : Platform) (Q R D : Type 0) : Type 0 where
  pub request_object : ℕ → Q → w.Value
  pub response_object : ℕ → R → w.Value
  pub read : w.Value → Incoming R D

-- The fields of an object literal are read back.
pub record IsProtocol {w : Platform} {Q R D : Type 0} (x : Protocol w Q R D) : Type 0 where
  pub read-response_object : (t : ℕ) (r : R) → x.read (x.response_object t r) ≡ tagged t r

module _ (w : Platform) {C Q R D : Type 0} (x : Protocol w Q R D) where
  -- `rest` after `await encodeMessage(…)`, which throws for a request with no text.
  rest_after : ℕ → C → Result (Frame w) → Auth C (Frame w) → Auth C (Frame w)
  rest_after t c (ok f) a = rest_send t c f a
  rest_after t c thrown a = rest_fail t a

  -- `rest` from its `await` on, with the way that the worker takes.
  pub rest_encoded : Way → ℕ → ℕ → C → Q → Auth C (Frame w) → Auth C (Frame w)
  unfolding rest_after
  rest_encoded way n t c q a = rest_after t c (encode_message w way n (x.request_object t q)) a

  heard : Result (Option w.Value) → Auth C (Frame w) → Auth C (Frame w) × List (Effect C R D)
  heard thrown a = (a, [])
  heard (ok none) a = on_message undecodable a
  heard (ok (some v)) a = on_message (x.read v) a

  -- The listener of `message`. Where `decodeMessage` throws, nothing comes after it.
  pub listen : Way → ℕ → Frame w → Auth C (Frame w) → Auth C (Frame w) × List (Effect C R D)
  unfolding heard
  listen way n frame a = heard (decode_message w way n frame) a
