-- ===== src/Compress/Offload.antt =====
-- The exported functions of web/src/workers/Compress.ts: each asks the worker, and does the work
-- itself where the worker did not answer.
pub mod Transparent
mod Tests
use web_ssh_tool.Common.{ℕ, String, ◌≡◌, refl, Bool, true, false, Option, none, some, List, [], ◌∷◌}
use web_ssh_tool.Compress.Codec
use web_ssh_tool.Compress.Codec.{
  Result, ok, thrown, ◌>>=◌, Platform, IsLossless, Buffer, fresh_buffer, transfer, deflate, inflate,
  stringify_and_deflate, inflate_and_json, Payload, buffer, value, Posted, answer, failure,
  on_worker_message,
}

-- How one request goes: `request()` finds the worker closed, `postMessage` throws, the worker
-- ends before it answers, or it answers.
pub data Way : Type 0 where
  refused post_throws worker_ends worker_answers : Way

module _ (w : Platform) where
  -- The awaited promise: what it resolves to, or a rejection.
  abbrev settled : Posted w → Result (Payload w)
  settled (answer tag res) = ok res
  settled (failure tag) = thrown

  -- `if (req !== undefined) { try { postMessage; return await promise } catch {} }`: the result
  -- that is returned, or nothing, where the function goes on to its last line.
  returned : Way → ℕ → String → Payload w → Option (Payload w)
  returned refused tag key p = none
  returned post_throws tag key p = none
  returned worker_ends tag key p = none
  returned worker_answers tag key p = elim (settled (on_worker_message w tag ((key, p) ∷ []))) [
    | ok res ↦ some res
    | thrown ↦ none
  ]

  -- The caller's buffer after the attempt.
  left : Way → Buffer w → Buffer w
  left refused b = b
  left post_throws b = b
  left worker_ends b = transfer w b
  left worker_answers b = transfer w b

  abbrev or_buffer : Option (Payload w) → Result (Buffer w) → Result (Buffer w)
  or_buffer none last = last
  or_buffer (some (buffer b)) last = ok b
  or_buffer (some (value v)) last = last

  abbrev or_value : Option (Payload w) → Result w.Value → Result w.Value
  or_value none last = last
  or_value (some (buffer b)) last = last
  or_value (some (value v)) last = ok v

  unfoldable pub compress : Way → ℕ → Buffer w → Result (Buffer w)
  unfolding returned left
  compress way tag b =
      or_buffer (returned way tag "requestDeflate" (buffer b)) (deflate w (left way b))

  pub decompress : Way → ℕ → Buffer w → Result (Buffer w)
  unfolding returned left
  decompress way tag b =
      or_buffer (returned way tag "requestInflate" (buffer b)) (inflate w (left way b))

  unfoldable pub stringify_and_compress : Way → ℕ → w.Value → Result (Buffer w)
  unfolding returned
  stringify_and_compress way tag obj =
      or_buffer (returned way tag "stringifyAndDeflate" (value obj)) (stringify_and_deflate w obj)

  pub decompress_and_json : Way → ℕ → Buffer w → Result w.Value
  unfolding returned left
  decompress_and_json way tag b =
      or_value (returned way tag "inflateAndJson" (buffer b)) (inflate_and_json w (left way b))

  -- What a socket hands over or is given.
  pub data Frame : Type 0 where
    blob : w.Bytes → Frame
    array_buffer : Buffer w → Frame
    text : w.Text → Frame
    other : Frame

  -- `undefined` is `ok none`; `blob.arrayBuffer()` gives a buffer of its own.
  pub decode_message : Way → ℕ → Frame → Result (Option w.Value)
  decode_message way tag (blob b) = do
    v ← decompress_and_json way tag (fresh_buffer w b)
    ok (some v)
  decode_message way tag (array_buffer b) = do v ← decompress_and_json way tag b; ok (some v)
  decode_message way tag (text t) = do v ← w.parse t; ok (some v)
  decode_message way tag other = ok none

  or_text : w.Value → Result (Buffer w) → Result Frame
  or_text obj (ok b) = ok (array_buffer b)
  or_text obj thrown = do t ← w.stringify obj; ok (text t)

  unfoldable pub encode_message : Way → ℕ → w.Value → Result Frame
  unfolding or_text
  encode_message way tag obj = or_text obj (stringify_and_compress way tag obj)
