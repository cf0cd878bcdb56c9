-- ===== src/Auth/Wire/Tests.antt =====
-- A request of `Auth` over a wire of marked values.
use web_ssh_tool.Common.{ℕ, ◌≡◌, refl, true, some, List, [], ◌∷◌, arith, inl}
use web_ssh_tool.Compress.Codec.{
  Result, ok, thrown, Platform, IsLossless, fresh_buffer, stringify_and_deflate, deflate,
  on_worker_message,
}
use web_ssh_tool.Compress.Offload.{
  Frame, stringify_and_compress, array_buffer, worker_answers, post_throws, worker_ends, refused,
  encode_message, decode_message,
}
use web_ssh_tool.Compress.Offload.Transparent.{loses_buffer, received}
use web_ssh_tool.Auth.{Auth, Incoming, tagged, neither, callback, rest_start, on_message}
use web_ssh_tool.Auth.Steps.{IsWellFormed, start, receive, Step-IsWellFormed}
use web_ssh_tool.Auth.Correlation.{here, next}
use web_ssh_tool.Auth.Wire.{Protocol, IsProtocol, rest_encoded, listen}
use web_ssh_tool.Auth.Wire.Answered.{answered_over_wire}

data Value : Type 0 where
  asks answers : ℕ → ℕ → Value
  mark : Value

abbrev unmarked : List Value → Result (List Value)
unmarked (mark ∷ b) = ok b
unmarked _ = thrown

abbrev first : List Value → Value
first [] = mark
first (v ∷ b) = v

abbrev platform : Platform
platform = record {
  Bytes = List Value;
  Text = Value;
  Value = Value;
  gzip = λ b. mark ∷ b;
  ungzip = unmarked;
  stringify = λ v. ok v;
  parse = λ t. ok t;
  encode = λ t. t ∷ [];
  decode = first;
}

platform-IsLossless : IsLossless platform
platform-IsLossless = record {
  ungzip-gzip = λ b. refl;
  parse-stringify = λ v t h. cc;
  decode-encode = λ t. refl;
}

abbrev read : Value → Incoming ℕ ℕ
read (asks t q) = neither
read (answers t r) = tagged t r
read mark = neither

abbrev protocol : Protocol platform ℕ ℕ ℕ
protocol = record { request_object = asks; response_object = answers; read = read }

protocol-IsProtocol : IsProtocol protocol
protocol-IsProtocol = record { read-response_object = λ t r. refl }

abbrev fresh : Auth ℕ (Frame platform)
fresh = record { tag = 0; callbacks = []; started = []; sent = [] }

abbrev asking : Auth ℕ (Frame platform)
asking = (rest_start fresh).0

asking-IsWellFormed : IsWellFormed asking
asking-IsWellFormed = Step-IsWellFormed {R = ℕ} {D = ℕ} (start refl) (record {
  below = tt;
  distinct = tt;
  started_below = tt;
  started_absent = tt;
  started_once = tt;
})

abbrev frame_of : Value → Frame platform
frame_of v = array_buffer (fresh_buffer platform (mark ∷ v ∷ []))

-- The request is sent, and a response with another tag comes first.
abbrev waits : Auth ℕ (Frame platform)
waits =
    (on_message {R = ℕ} {D = ℕ} (tagged 5 1)
      (rest_encoded platform protocol worker_ends 1 0 20 6 asking)).0

encoded : encode_message platform worker_ends 1 (asks 0 6) ≡ ok (frame_of (asks 0 6))
unfolding encode_message stringify_and_compress stringify_and_deflate deflate on_worker_message
encoded = refl

answered : encode_message platform refused 3 (answers 0 8) ≡ ok (frame_of (answers 0 8))
unfolding encode_message stringify_and_compress stringify_and_deflate deflate on_worker_message
answered = refl

answered_over_wire_example :
    (decode_message platform post_throws 2 (received platform (frame_of (asks 0 6)))
      ≡ ok (some (asks 0 6)))
    × ((listen platform protocol worker_answers 4
          (received platform (frame_of (answers 0 8)))
          waits).1
        ≡ callback 20 8 ∷ [])
    × ((loses_buffer worker_answers ≡ true)
        → (listen platform protocol worker_answers 4
            (received platform (frame_of (answers 0 8)))
            waits).0
          ≡ waits)
unfolding rest_start
answered_over_wire_example =
    answered_over_wire platform platform-IsLossless protocol protocol-IsProtocol worker_ends
      post_throws refused worker_answers 1 2 3 4 0 20 6 8 asking waits (frame_of (asks 0 6))
      (frame_of (answers 0 8)) asking-IsWellFormed (inl refl) encoded answered refl
      (next here (receive (tagged 5 1) refl) (omega arith))
