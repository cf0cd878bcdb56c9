-- ===== src/SignIn/Server.antt =====
-- `AppServer.signIn` of web/src/App.tsx: one call, with the frames that web/src/workers/Compress.ts
-- makes and reads.
pub mod Replied
mod Tests
use web_ssh_tool.Common.{ℕ, Option, none, some, List, [], ◌∷◌, ◌++◌}
use web_ssh_tool.Compress.Codec.{Result, ok, thrown, Platform}
use web_ssh_tool.Compress.Offload.{Way, Frame, encode_message, decode_message}

module _ (w : Platform) where
  -- Where the call is: it awaits `encodeMessage`, which may throw; its listener, which is removed
  -- with the first message, waits or awaits `decodeMessage`; or it is over. It is `lost` where the
  -- listener throws, for then the promise is not settled.
  pub data Call : Type 0 where
    encoding listening failed rejected lost : Call
    decoding : Frame w → Call
    resolved : w.Value → Call

  -- The object that is sent, and the frames that the socket was given.
  pub record Server : Type 0 where
    pub config : w.Value
    pub call : Call
    pub wire : List (Frame w)

  unfoldable pub sign_in : w.Value → Server
  sign_in config = record { config = config; call = encoding; wire = [] }

  abbrev pub on_encoded : Result (Frame w) → Server → Server
  on_encoded thrown s = record s { call = failed }
  on_encoded (ok f) s = record s { call = listening; wire = s.wire ++ f ∷ [] }

  -- `if (obj === undefined) reject(obj); resolve(obj)`
  abbrev pub on_decoded : Result (Option w.Value) → Server → Server
  on_decoded thrown s = record s { call = lost }
  on_decoded (ok none) s = record s { call = rejected }
  on_decoded (ok (some obj)) s = record s { call = resolved obj }

  -- A promise of the worker is settled, in the way that it went, or a message comes.
  pub data Event : Type 0 where
    encoded decoded : Way → ℕ → Event
    message : Frame w → Event

  unfoldable pub step : Event → Server → Server
  step (encoded way n) s = elim s.call [
    | encoding ↦ on_encoded (encode_message w way n s.config) s
    | _ ↦ s
  ]
  step (message frame) s = elim s.call [ listening ↦ record s { call = decoding frame } | _ ↦ s ]
  step (decoded way n) s = elim s.call [
    | decoding frame ↦ on_decoded (decode_message w way n frame) s
    | _ ↦ s
  ]

  unfoldable pub run : List Event → Server → Server
  unfolding step
  run [] s = s
  run (e ∷ es) s = run es (step e s)
