-- ===== src/Auth/Uri.antt =====
-- `encodeURIComponent` on the UTF-8 bytes of a string, and the reading of a query string.
pub mod Laws
use web_ssh_tool.Common.Split.{split_on}
use web_ssh_tool.Common.{
  ℕ, ◌+◌, ◌-◌, ◌*◌, ◌/◌, ◌%◌, Bool, ◌&&◌, ◌||◌, List, [], ◌∷◌, map, leb, ltb, ◌==◌, if◌then◌else◌,
}

abbrev pub is_alphanumeric : ℕ → Bool
is_alphanumeric c =
    (leb b'A' c && leb c b'Z') || (leb b'a' c && leb c b'z') || (leb b'0' c && leb c b'9')

-- The characters that `encodeURIComponent` leaves alone: letters, digits and - _ . ! ~ * ' ( ).
pub is_unescaped : ℕ → Bool
is_unescaped c =
    is_alphanumeric c
    || c == 45
    || c == 95
    || c == 46
    || c == 33
    || c == 126
    || c == 42
    || c == 39
    || c == 40
    || c == 41

abbrev hex : ℕ → ℕ
hex d = if ltb d 10 then 48 + d else 55 + d

unfoldable pub encode_uri_component : List ℕ → List ℕ
unfolding is_unescaped
encode_uri_component [] = []
encode_uri_component (c ∷ s) =
    let rest = encode_uri_component s in
    if is_unescaped c then c ∷ rest else 37 ∷ hex (c / 16) ∷ hex (c % 16) ∷ rest

-- How a server reads a query: cut at `&`, then at the first `=`, then undo the escapes.
unfoldable pub cut : ℕ → List ℕ → List ℕ × List ℕ
cut sep [] = ([], [])
cut sep (x ∷ s) = let (a, b) = cut sep s in if x == sep then ([], s) else (x ∷ a, b)

abbrev unhex : ℕ → ℕ
unhex c = if leb c 57 then c - 48 else c - 55

-- Where an escape is: outside, after `%`, after its first digit.
pub data Mode : Type 0 where
  plain : Mode
  percent : Mode
  digit : ℕ → Mode

unfoldable pub unescape : Mode → List ℕ → List ℕ
unescape m [] = []
unescape plain (c ∷ s) =
    let inside = unescape percent s in
    let outside = unescape plain s in if c == 37 then inside else c ∷ outside
unescape percent (c ∷ s) = unescape (digit (unhex c)) s
unescape (digit d) (c ∷ s) = (d * 16 + unhex c) ∷ unescape plain s

unfoldable pub read_param : List ℕ → List ℕ × List ℕ
read_param part = let (key, value) = cut 61 part in (key, unescape plain value)

unfoldable pub parse_query : List ℕ → List (List ℕ × List ℕ)
parse_query q = map read_param (split_on 38 q)
