-- ===== src/Auth/Wire/Answered.antt =====
-- A request of `Auth` (web/src/pages/SignInPage.tsx) from its encoding by web/src/workers/Compress.ts
-- to the callback of its response.
use web_ssh_tool.Common.{ℕ, ◌≡◌, true, false, some, [], ◌∷◌, if◌then◌else◌, Bool-cases, inl, inr}
use web_ssh_tool.Compress.Codec.{ok, thrown, Platform, IsLossless}
use web_ssh_tool.Compress.Offload.{Way, Frame, encode_message, decode_message}
use web_ssh_tool.Compress.Offload.Transparent.{
  loses_buffer, received, decode-encode_message, decode-encode_message_lost,
}
use web_ssh_tool.Auth.{Auth, callback, rest_send, on_message}
use web_ssh_tool.Auth.Steps.{IsWellFormed, Listed}
use web_ssh_tool.Auth.Correlation.{Quiet, response_reaches_request}
use web_ssh_tool.Auth.Wire.{Protocol, IsProtocol, rest_encoded, listen}

module _ (w : Platform) (lossless : IsLossless w) {C Q R D : Type 0} (x : Protocol w Q R D)
    (law : IsProtocol x) where
  listen_decoded :
      (way : Way) (j : ℕ) (fr : Frame w) (u : w.Value) (b : Auth C (Frame w))
      → decode_message w way j fr ≡ ok (some u)
      → listen w x way j fr b ≡ on_message (x.read u) b
  unfolding listen
  listen_decoded way j fr u b e = rw e

  listen_thrown :
      (way : Way) (j : ℕ) (fr : Frame w) (b : Auth C (Frame w))
      → decode_message w way j fr ≡ thrown
      → listen w x way j fr b ≡ (b, [])
  unfolding listen
  listen_thrown way j fr b e = rw e

  rest_encoded_ok :
      (way : Way) (m t : ℕ) (c : C) (q : Q) (a : Auth C (Frame w)) (f : Frame w)
      → encode_message w way m (x.request_object t q) ≡ ok f
      → rest_encoded w x way m t c q a ≡ rest_send t c f a
  unfolding rest_encoded
  rest_encoded_ok way m t c q a f e = rw e

  -- The listener on the frame of a value.
  listen-encoded :
      (way way' : Way) (i j : ℕ) (u : w.Value) (g : Frame w) (b : Auth C (Frame w))
      → encode_message w way i u ≡ ok g
      → listen w x way' j (received w g) b
        ≡ (if loses_buffer way' then (b, []) else on_message (x.read u) b)
  listen-encoded way way' i j u g b h = elim (Bool-cases (loses_buffer way')) [
    | inl e ↦
        rw e (
          listen_thrown way' j (received w g) b (decode-encode_message_lost w way way' i j u g e h))
    | inr e ↦ rw e (
        listen_decoded way' j (received w g) u b
          (decode-encode_message w lossless way way' i j u g e h))
  ]

  -- A request over the wire. Whatever way the client's worker takes, the frame that is sent decodes
  -- to the request with its tag, at a receiver that keeps its buffer; and after any quiet steps, the
  -- frame in which the response to the tag was encoded makes the listener call the callback of the
  -- request with this response and nothing else, except where the worker ends with the frame in
  -- hand: then nothing is called and the request waits on.
  pub answered_over_wire :
      (sending there back hearing : Way) (m n i j t : ℕ) (c : C) (q : Q) (r : R)
      (a b : Auth C (Frame w)) (f g : Frame w)
      → IsWellFormed a
      → Listed t a.started
      → encode_message w sending m (x.request_object t q) ≡ ok f
      → encode_message w back i (x.response_object t r) ≡ ok g
      → loses_buffer there ≡ false
      → Quiet R D t (rest_encoded w x sending m t c q a) b
      → (decode_message w there n (received w f) ≡ ok (some (x.request_object t q)))
        × ((listen w x hearing j (received w g) b).1
            ≡ (if loses_buffer hearing then [] else callback c r ∷ []))
        × ((loses_buffer hearing ≡ true) → (listen w x hearing j (received w g) b).0 ≡ b)
  answered_over_wire sending there back hearing m n i j t c q r a b f g v l hf hg keeps quiet =
      let heard = listen-encoded back hearing i j (x.response_object t r) g b hg in
      let sent : Quiet R D t (rest_send t c f a) b =
        rw (← rest_encoded_ok sending m t c q a f hf) quiet in
      let called = (response_reaches_request t c f r r a b v l sent).0 in
      (
        decode-encode_message w lossless sending there m n (x.request_object t q) f keeps hf,
        elim (Bool-cases (loses_buffer hearing)) [
          | inl e ↦ rw (heard, e)
          | inr e ↦ rw (heard, e, law.read-response_object t r) called
        ],
        λ e. rw (heard, e),
      )
