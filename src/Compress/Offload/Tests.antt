-- ===== src/Compress/Offload/Tests.antt =====
-- Runs of the exported functions of web/src/workers/Compress.ts on a platform of numbers.
use web_ssh_tool.Common.{ℕ, ◌≡◌, refl, some, List, [], ◌∷◌, if◌then◌else◌, ◌==◌, arith}
use web_ssh_tool.Compress.Codec.{
  Result, ok, thrown, Platform, IsLossless, fresh_buffer, deflate, stringify_and_deflate,
}
use web_ssh_tool.Compress.Offload.{
  worker_answers, post_throws, array_buffer, stringify_and_compress, encode_message, decode_message,
}
use web_ssh_tool.Compress.Offload.Transparent.{decode-encode_message, received}

-- A platform whose values and texts are numbers and whose compression adds a mark; 0 has no text.
abbrev written : ℕ → Result ℕ
written n = if n == 0 then thrown else ok n

abbrev unmarked : List ℕ → Result (List ℕ)
unmarked [] = thrown
unmarked (c ∷ b) = if c == 31 then ok b else thrown

abbrev first : List ℕ → ℕ
first [] = 0
first (n ∷ b) = n

abbrev platform : Platform
platform = record {
  Bytes = List ℕ;
  Text = ℕ;
  Value = ℕ;
  gzip = λ b. 31 ∷ b;
  ungzip = unmarked;
  stringify = written;
  parse = λ t. ok t;
  encode = λ t. t ∷ [];
  decode = first;
}

parse-written : (v t : ℕ) → written v ≡ ok t → ok t ≡ ok v
parse-written v t h = ground arith

platform-IsLossless : IsLossless platform
platform-IsLossless = record {
  ungzip-gzip = λ b. refl;
  parse-stringify = parse-written;
  decode-encode = λ t. refl;
}

decode-encode_message_example :
    decode_message platform worker_answers 4
      (received platform (array_buffer (fresh_buffer platform (31 ∷ 9 ∷ []))))
    ≡ ok (some 9)
unfolding encode_message stringify_and_compress stringify_and_deflate deflate
decode-encode_message_example =
    decode-encode_message platform platform-IsLossless post_throws worker_answers 3 4 9
      (array_buffer (fresh_buffer platform (31 ∷ 9 ∷ []))) refl refl
