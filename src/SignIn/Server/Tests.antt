-- ===== src/SignIn/Server/Tests.antt =====
-- A sign-in over a wire of marked values, with a message too early and one too late.
use web_ssh_tool.Common.{ℕ, ◌≡◌, refl, some, List, [], ◌∷◌}
use web_ssh_tool.Compress.Codec.{
  Result, ok, thrown, Platform, IsLossless, fresh_buffer, stringify_and_deflate, deflate,
  on_worker_message,
}
use web_ssh_tool.Compress.Offload.{
  Frame, stringify_and_compress, array_buffer, worker_answers, post_throws, refused, encode_message,
  decode_message,
}
use web_ssh_tool.Compress.Offload.Transparent.{loses_buffer, received}
use web_ssh_tool.SignIn.Server.{Event, encoded, decoded, message}
use web_ssh_tool.SignIn.Server.Replied.{history, outcome, first_message_answers}

data Value : Type 0 where
  name answer : ℕ → Value
  mark : Value

abbrev unmarked : List Value → Result (List Value)
unmarked (mark ∷ b) = ok b
unmarked _ = thrown

abbrev first : List Value → Value
first [] = mark
first (v ∷ b) = v

abbrev platform : Platform
platform = record {
  Bytes = List Value;
  Text = Value;
  Value = Value;
  gzip = λ b. mark ∷ b;
  ungzip = unmarked;
  stringify = λ v. ok v;
  parse = λ t. ok t;
  encode = λ t. t ∷ [];
  decode = first;
}

platform-IsLossless : IsLossless platform
platform-IsLossless = record {
  ungzip-gzip = λ b. refl;
  parse-stringify = λ v t h. cc;
  decode-encode = λ t. refl;
}

abbrev frame : Value → Frame platform
frame v = array_buffer (fresh_buffer platform (mark ∷ v ∷ []))

abbrev before : List (Event platform)
before = message (frame (answer 9)) ∷ []

abbrev more : List (Event platform)
more = message (frame (answer 2)) ∷ []

first_message_answers_example :
    let s =
      history platform before
        (encoded worker_answers 0)
        []
        (received platform (frame (answer 1)))
        more
        (decoded post_throws 4)
        before
        (name 3) in
    (s.call ≡ outcome platform (loses_buffer post_throws) (answer 1))
    × (s.wire ≡ frame (name 3) ∷ [])
    × (decode_message platform refused 5 (received platform (frame (name 3))) ≡ ok (some (name 3)))
unfolding encode_message stringify_and_compress stringify_and_deflate deflate on_worker_message
first_message_answers_example =
    first_message_answers platform platform-IsLossless worker_answers refused refused post_throws 0
      5 0 4 (name 3) (answer 1) (frame (name 3)) (frame (answer 1)) before [] more before (tt, tt)
      tt (tt, tt) refl refl refl
