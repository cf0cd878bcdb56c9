-- ===== src/Compress/Offload/Transparent.antt =====
-- The exported functions of web/src/workers/Compress.ts beside those of CompressCommon.ts.
use web_ssh_tool.Common.{ℕ, ◌≡◌, refl, Bool, true, false, some, arith, if◌then◌else◌}
use web_ssh_tool.Compress.Codec.{
  Result, ok, thrown, Platform, IsLossless, fresh_buffer, deflate, inflate, stringify_and_deflate,
  inflate_and_json, on_worker_message,
}
use web_ssh_tool.Compress.Offload.{
  Way, refused, post_throws, worker_ends, worker_answers, compress, decompress,
  stringify_and_compress, decompress_and_json, Frame, blob, array_buffer, text, other,
  decode_message, encode_message, or_text,
}

abbrev pub loses_buffer : Way → Bool
loses_buffer worker_ends = true
loses_buffer _ = false

module _ (w : Platform) where
  -- Serialising and compressing a value gives what the same work on the main thread gives, whether
  -- the worker is closed, cannot be posted to, ends before it answers, or answers or fails.
  pub stringify_and_compress_lem :
      (way : Way) (tag : ℕ) (obj : w.Value)
      → stringify_and_compress w way tag obj ≡ stringify_and_deflate w obj
  unfolding stringify_and_compress on_worker_message
  stringify_and_compress_lem refused tag obj = refl
  stringify_and_compress_lem post_throws tag obj = refl
  stringify_and_compress_lem worker_ends tag obj = refl
  stringify_and_compress_lem worker_answers tag obj = ground arith

  -- For a buffer that is not detached the same holds of the three other functions, except where
  -- the worker ends after the buffer was transferred to it: then the buffer is gone, and the work
  -- on the main thread throws, whatever the buffer holds.
  pub transferred_buffer_lem :
      (way : Way) (tag : ℕ) (b : w.Bytes)
      → (compress w way tag (fresh_buffer w b)
          ≡ (if loses_buffer way then thrown else deflate w (fresh_buffer w b)))
        × (decompress w way tag (fresh_buffer w b)
            ≡ (if loses_buffer way then thrown else inflate w (fresh_buffer w b)))
        × (decompress_and_json w way tag (fresh_buffer w b)
            ≡ (if loses_buffer way then thrown else inflate_and_json w (fresh_buffer w b)))
  unfolding compress decompress decompress_and_json on_worker_message deflate inflate
      inflate_and_json
  transferred_buffer_lem refused tag b = (refl, refl, refl)
  transferred_buffer_lem post_throws tag b = (refl, refl, refl)
  transferred_buffer_lem worker_ends tag b = (refl, refl, refl)
  transferred_buffer_lem worker_answers tag b = (ground arith, ground arith, ground arith)

  -- What arrives at the other end of the socket, whose binary type is `blob`.
  abbrev pub received : Frame w → Frame w
  received (blob b) = blob b
  received (array_buffer b) = blob b.bytes
  received (text t) = text t
  received other = other

  encoded_text :
      (obj : w.Value) (r : Result w.Text) (f : Frame w)
      → w.stringify obj ≡ r
      → or_text w obj (stringify_and_deflate w obj) ≡ ok f
      → (t : w.Text) × (w.stringify obj ≡ ok t)
        × (f ≡ array_buffer (fresh_buffer w (w.gzip (w.encode t))))
  unfolding or_text stringify_and_deflate deflate
  encoded_text obj (ok t) f e h = (t, e, ground arith)
  encoded_text obj thrown f e h = ground arith

  inflated_value :
      (lossless : IsLossless w) (obj : w.Value) (t : w.Text)
      → w.stringify obj ≡ ok t
      → inflate_and_json w (fresh_buffer w (w.gzip (w.encode t))) ≡ ok obj
  unfolding inflate_and_json inflate
  inflated_value lossless obj t e = ground (
    arith,
    lossless.ungzip-gzip (w.encode t),
    lossless.decode-encode t,
    lossless.parse-stringify obj t e,
  )

  -- A value that was encoded on one side of the socket is decoded to itself on the other, however
  -- the two workers fare, unless the decoding one ends with the buffer in hand.
  pub decode-encode_message :
      (lossless : IsLossless w) (way way' : Way) (tag tag' : ℕ) (obj : w.Value) (f : Frame w)
      → loses_buffer way' ≡ false
      → encode_message w way tag obj ≡ ok f
      → decode_message w way' tag' (received f) ≡ ok (some obj)
  unfolding encode_message decode_message
  decode-encode_message lossless way way' tag tag' obj f keeps h =
      let (t, e, same) =
        encoded_text obj (w.stringify obj) f refl
          (rw (← stringify_and_compress_lem way tag obj) h) in
      let answer = (transferred_buffer_lem way' tag' (w.gzip (w.encode t))).2 in
      rw (same, answer, keeps, inflated_value lossless obj t e)

  -- The decoding side throws where its worker ends with the buffer in hand.
  pub decode-encode_message_lost :
      (way way' : Way) (tag tag' : ℕ) (obj : w.Value) (f : Frame w)
      → loses_buffer way' ≡ true
      → encode_message w way tag obj ≡ ok f
      → decode_message w way' tag' (received f) ≡ thrown
  unfolding encode_message decode_message
  decode-encode_message_lost way way' tag tag' obj f loses h =
      let (t, e, same) =
        encoded_text obj (w.stringify obj) f refl
          (rw (← stringify_and_compress_lem way tag obj) h) in
      let answer = (transferred_buffer_lem way' tag' (w.gzip (w.encode t))).2 in
      rw (same, answer, loses)
