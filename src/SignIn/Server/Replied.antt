-- ===== src/SignIn/Server/Replied.antt =====
-- The answer to a sign-in (App.tsx) from its frame to the promise.
use web_ssh_tool.Common.{
  ℕ, ◌≡◌, refl, ap, ◌∙◌, Bool, true, false, some, List, [], ◌∷◌, All, Bool-cases, inl, inr,
}
use web_ssh_tool.Compress.Codec.{ok, Platform, IsLossless}
use web_ssh_tool.Compress.Offload.{Way, Frame, encode_message, decode_message}
use web_ssh_tool.Compress.Offload.Transparent.{
  loses_buffer, received, decode-encode_message, decode-encode_message_lost,
}
use web_ssh_tool.SignIn.Server.{
  Call, encoding, listening, lost, decoding, resolved, Server, sign_in, on_encoded, on_decoded,
  Event, encoded, decoded, message, step, run,
}

module _ (w : Platform) where
  abbrev pub NotEncoded : Event w → Type 0
  NotEncoded (encoded way n) = ⊥
  NotEncoded _ = Unit

  abbrev pub NotMessage : Event w → Type 0
  NotMessage (message frame) = ⊥
  NotMessage _ = Unit

  abbrev pub NotDecoded : Event w → Type 0
  NotDecoded (decoded way n) = ⊥
  NotDecoded _ = Unit

  unmoved :
      (P : Event w → Type 0) (s : Server w)
      → ((e : Event w) → P e → step w e s ≡ s)
      → (es : List (Event w)) → All P es
      → run w es s ≡ s
  unfolding run
  unmoved P s same [] h = refl
  unmoved P s same (e ∷ es) h = ap (λ x. run w es x) (same e h.0) ∙ unmoved P s same es h.1

  abbrev at_stage : w.Value → List (Frame w) → Call w → Server w
  at_stage v fs c = record { config = v; call = c; wire = fs }

  encoding_waits :
      (v : w.Value) (fs : List (Frame w)) (e : Event w)
      → NotEncoded e
      → step w e (at_stage v fs encoding) ≡ at_stage v fs encoding
  unfolding step
  encoding_waits v fs (encoded way n) h = absurd h
  encoding_waits v fs (decoded way n) h = refl
  encoding_waits v fs (message frame) h = refl

  listening_waits :
      (v : w.Value) (fs : List (Frame w)) (e : Event w)
      → NotMessage e
      → step w e (at_stage v fs listening) ≡ at_stage v fs listening
  unfolding step
  listening_waits v fs (encoded way n) h = refl
  listening_waits v fs (decoded way n) h = refl
  listening_waits v fs (message frame) h = absurd h

  decoding_waits :
      (v : w.Value) (fs : List (Frame w)) (g : Frame w) (e : Event w)
      → NotDecoded e
      → step w e (at_stage v fs (decoding g)) ≡ at_stage v fs (decoding g)
  unfolding step
  decoding_waits v fs g (encoded way n) h = refl
  decoding_waits v fs g (decoded way n) h = absurd h
  decoding_waits v fs g (message frame) h = refl

  -- What the promise comes to, by whether the listener has lost its buffer.
  abbrev pub outcome : Bool → w.Value → Call w
  outcome true u = lost
  outcome false u = resolved u

  over_waits :
      (b : Bool) (u v : w.Value) (fs : List (Frame w)) (e : Event w)
      → step w e (at_stage v fs (outcome b u)) ≡ at_stage v fs (outcome b u)
  unfolding step
  over_waits true u v fs (encoded way n) = refl
  over_waits true u v fs (decoded way n) = refl
  over_waits true u v fs (message frame) = refl
  over_waits false u v fs (encoded way n) = refl
  over_waits false u v fs (decoded way n) = refl
  over_waits false u v fs (message frame) = refl

  sends :
      (way : Way) (n : ℕ) (v : w.Value) (f : Frame w)
      → encode_message w way n v ≡ ok f
      → step w (encoded way n) (at_stage v [] encoding) ≡ at_stage v (f ∷ []) listening
  unfolding step
  sends way n v f e = ap (λ r. on_encoded w r (at_stage v [] encoding)) e

  settles :
      (lossless : IsLossless w) (way way' : Way) (i j : ℕ) (u v : w.Value) (fs : List (Frame w))
      (g : Frame w)
      → encode_message w way i u ≡ ok g
      → step w (decoded way' j) (at_stage v fs (decoding (received w g)))
        ≡ at_stage v fs (outcome (loses_buffer way') u)
  unfolding step
  settles lossless way way' i j u v fs g e = elim (Bool-cases (loses_buffer way')) [
    | inl b ↦ rw b (
        ap (λ r. on_decoded w r (at_stage v fs (decoding (received w g))))
          (decode-encode_message_lost w way way' i j u g b e))
    | inr b ↦ rw b (
        ap (λ r. on_decoded w r (at_stage v fs (decoding (received w g))))
          (decode-encode_message w lossless way way' i j u g b e))
  ]

  -- The events of a call up to its end: others may come before each of its three steps and after.
  abbrev pub history :
      List (Event w)
      → Event w
      → List (Event w)
      → Frame w
      → List (Event w)
      → Event w
      → List (Event w)
      → w.Value
      → Server w
  history before sending waits g more hearing later v = run w later (
      step w hearing (
        run w more
          (step w (message g) (run w waits (step w sending (run w before (sign_in w v)))))))

  up_to_frame :
      (way : Way) (n : ℕ) (v : w.Value) (f : Frame w) (before waits : List (Event w))
      → All NotEncoded before
      → All NotMessage waits
      → encode_message w way n v ≡ ok f
      → run w waits (step w (encoded way n) (run w before (sign_in w v)))
        ≡ at_stage v (f ∷ []) listening
  unfolding sign_in
  up_to_frame way n v f before waits b h e =
      ap (λ s. run w waits (step w (encoded way n) s))
        (unmoved NotEncoded (sign_in w v) (encoding_waits v []) before b)
      ∙ ap (λ s. run w waits s) (sends way n v f e)
      ∙ unmoved NotMessage (at_stage v (f ∷ []) listening) (listening_waits v (f ∷ [])) waits h

  hears :
      (v : w.Value) (fs : List (Frame w)) (g : Frame w) (more : List (Event w))
      → All NotDecoded more
      → run w more (step w (message g) (at_stage v fs listening)) ≡ at_stage v fs (decoding g)
  unfolding step
  hears v fs g more h =
      unmoved NotDecoded (at_stage v fs (decoding g)) (decoding_waits v fs g) more h

  abbrev Any : Event w → Type 0
  Any e = Unit

  All-Any : (es : List (Event w)) → All Any es
  All-Any [] = tt
  All-Any (e ∷ es) = (tt, All-Any es)

  -- The first message that comes after the frame of a sign-in was sent is its answer: whatever ways
  -- the workers take, the one frame that is sent decodes to the name and password at a receiver that
  -- keeps its buffer, and the promise resolves to the object that was encoded in that message,
  -- whatever came before, comes in between or follows; only where the worker ends with the message in
  -- hand is the promise never settled.
  pub first_message_answers :
      (lossless : IsLossless w) (sending there back hearing : Way) (m n i j : ℕ) (v u : w.Value)
      (f g : Frame w) (before waits more later : List (Event w))
      → All NotEncoded before
      → All NotMessage waits
      → All NotDecoded more
      → encode_message w sending m v ≡ ok f
      → encode_message w back i u ≡ ok g
      → loses_buffer there ≡ false
      → let s =
          history before
            (encoded sending m)
            waits
            (received w g)
            more
            (decoded hearing j)
            later
            v in
        (s.call ≡ outcome (loses_buffer hearing) u)
        × (s.wire ≡ f ∷ [])
        × (decode_message w there n (received w f) ≡ ok (some v))
  first_message_answers lossless sending there back hearing m n i j v u f g before waits more later
        b h d e e' keeps =
      let fs = f ∷ [] in
      let same : history before (encoded sending m) waits (received w g) more (decoded hearing j)
            later v
          ≡ at_stage v fs (outcome (loses_buffer hearing) u) =
        ap
          (λ s.
            run w later
              (step w (decoded hearing j) (run w more (step w (message (received w g)) s))))
          (up_to_frame sending m v f before waits b h e)
        ∙ ap (λ s. run w later (step w (decoded hearing j) s)) (hears v fs (received w g) more d)
        ∙ ap (λ s. run w later s) (settles lossless back hearing i j u v fs g e')
        ∙ unmoved Any (at_stage v fs (outcome (loses_buffer hearing) u))
            (λ x k. over_waits (loses_buffer hearing) u v fs x) later (All-Any later) in
      (
        ap (λ s. s.call) same,
        ap (λ s. s.wire) same,
        decode-encode_message w lossless sending there m n v f keeps e,
      )
