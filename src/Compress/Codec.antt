-- ===== src/Compress/Codec.antt =====
-- web/src/workers/CompressCommon.ts and the handler of web/src/workers/Compress.worker.ts.
-- pako and the platform's JSON and UTF-8 are the parameter `Platform`.
use text.Mathlib.Text.{◌==◌ as str_eq}
use web_ssh_tool.Common.{
  ℕ, String, ◌≡◌, Bool, true, false, Option, none, some, List, [], ◌∷◌, if◌then◌else◌,
}

-- What a call may do: return, or throw.
pub data Result {ℓ} (A : Type ℓ) : Type ℓ where
  ok : A → Result A
  thrown : Result A

infixl 5 ◌>>=◌
abbrev pub ◌>>=◌ {ℓ κ} : {A : Type ℓ} {B : Type κ} → Result A → (A → Result B) → Result B
ok a >>= f = f a
thrown >>= f = thrown

-- `gzip` and `ungzip` of pako; `JSON.stringify` and `JSON.parse`, which throw on a value with no
-- text and on a text with no value; `TextEncoder` and `TextDecoder`.
pub record Platform : Type 1 where
  pub Bytes : Type 0
  pub Text : Type 0
  pub Value : Type 0
  pub gzip : Bytes → Bytes
  pub ungzip : Bytes → Result Bytes
  pub stringify : Value → Result Text
  pub parse : Text → Result Value
  pub encode : Text → Bytes
  pub decode : Bytes → Text

-- What their documentation promises of each pair.
pub record IsLossless (w : Platform) : Type 0 where
  pub ungzip-gzip : (b : w.Bytes) → w.ungzip (w.gzip b) ≡ ok b
  pub parse-stringify : (v : w.Value) (t : w.Text) → w.stringify v ≡ ok t → w.parse t ≡ ok v
  pub decode-encode : (t : w.Text) → w.decode (w.encode t) ≡ t

module _ (w : Platform) where
  -- An `ArrayBuffer`; one that was transferred to another thread is detached.
  pub record Buffer : Type 0 where
    pub bytes : w.Bytes
    pub detached : Bool

  abbrev pub fresh_buffer : w.Bytes → Buffer
  fresh_buffer b = record { bytes = b; detached = false }

  abbrev pub transfer : Buffer → Buffer
  transfer b = record b { detached = true }

  -- `new Uint8Array(arr)` throws on a detached buffer.
  abbrev pub uint8_array : Buffer → Result w.Bytes
  uint8_array b = if b.detached then thrown else ok b.bytes

  unfoldable pub deflate : Buffer → Result Buffer
  deflate arr = do bytes ← uint8_array arr; ok (fresh_buffer (w.gzip bytes))

  unfoldable pub inflate : Buffer → Result Buffer
  inflate arr = do bytes ← uint8_array arr; plain ← w.ungzip bytes; ok (fresh_buffer plain)

  unfoldable pub stringify_and_deflate : w.Value → Result Buffer
  stringify_and_deflate obj = do str ← w.stringify obj; deflate (fresh_buffer (w.encode str))

  unfoldable pub inflate_and_json : Buffer → Result w.Value
  inflate_and_json arr = do buf ← inflate arr; bytes ← uint8_array buf; w.parse (w.decode bytes)

  -- What a message to the worker carries, and what it posts back.
  pub data Payload : Type 0 where
    buffer : Buffer → Payload
    value : w.Value → Payload

  on_buffer : (Buffer → Result Payload) → Payload → Result Payload
  on_buffer f (buffer b) = f b
  on_buffer f (value v) = thrown

  on_value : (w.Value → Result Payload) → Payload → Result Payload
  on_value f (buffer b) = thrown
  on_value f (value v) = f v

  abbrev as_buffer : Result Buffer → Result Payload
  as_buffer r = do b ← r; ok (buffer b)

  abbrev as_value : Result w.Value → Result Payload
  as_value r = do v ← r; ok (value v)

  -- The `switch` on the key; `none` is an unknown one.
  unfoldable pub handle_fn : String → Option (Payload → Result Payload)
  unfolding on_buffer on_value
  handle_fn key =
      if str_eq key "requestDeflate"
      then some (on_buffer (λ b. as_buffer (deflate b)))
      else if str_eq key "requestInflate"
      then some (on_buffer (λ b. as_buffer (inflate b)))
      else if str_eq key "stringifyAndDeflate"
      then some (on_value (λ v. as_buffer (stringify_and_deflate v)))
      else if str_eq key "inflateAndJson"
      then some (on_buffer (λ b. as_value (inflate_and_json b)))
      else none

  -- What `postMessage` sends from the worker.
  pub data Posted : Type 0 where
    answer : ℕ → Payload → Posted
    failure : ℕ → Posted

  attempt : ℕ → Result Payload → Posted
  attempt tag (ok res) = answer tag res
  attempt tag thrown = failure tag

  -- `self.onmessage`: the first entry decides, for it either returns or breaks the loop.
  unfoldable pub on_worker_message : ℕ → List (String × Payload) → Posted
  unfolding attempt handle_fn
  on_worker_message tag [] = failure tag
  on_worker_message tag ((key, v) ∷ rest) = elim (handle_fn key) [
    | none ↦ failure tag
    | some f ↦ attempt tag (f v)
  ]
