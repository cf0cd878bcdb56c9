-- ===== src/Auth/Uri/Laws.antt =====
-- Escaping with `encodeURIComponent` and reading back what was escaped.
use web_ssh_tool.Common.Split.{split_on}
use web_ssh_tool.Common.{
  ℕ, ◌<◌, ◌≡◌, ◌≢◌, refl, true, List, [], ◌∷◌, ◌++◌, ◌/◌, ◌%◌, ap, arith, All, Bool-cases, inl, inr,
}
use mathlib.Core.Bool.{false≢true}
use web_ssh_tool.Auth.Uri.{is_unescaped, hex, encode_uri_component, cut, unhex, plain, unescape}

abbrev pub IsBytes : List ℕ → Type 0
IsBytes s = All (λ c. c < 256) s

-- No `&`, `=` or `%`, whether as it stands or after escaping.
abbrev pub IsPlain : List ℕ → Type 0
IsPlain s = All (λ c. (c ≢ 38) × (c ≢ 61) × (c ≢ 37)) s

unhex-hex : (d : ℕ) → d < 16 → unhex (hex d) ≡ d
unhex-hex d h = ground arith

hex_range : (d : ℕ) → d < 16 → (hex d ≢ 38) × (hex d ≢ 61)
hex_range d h = ground arith

unescaped_range : (c : ℕ) → is_unescaped c ≡ true → (c ≢ 38) × (c ≢ 61) × (c ≢ 37)
unfolding is_unescaped
unescaped_range c h =
    (λ e. false≢true (rw e at h), λ e. false≢true (rw e at h), λ e. false≢true (rw e at h))

-- Escaping leaves no `&` and no `=`.
pub encode-NoSeparator :
    (s : List ℕ) → IsBytes s → All (λ c. (c ≢ 38) × (c ≢ 61)) (encode_uri_component s)
unfolding encode_uri_component
encode-NoSeparator [] h = tt
encode-NoSeparator (c ∷ s) h = elim (Bool-cases (is_unescaped c)) [
  | inl e ↦ let (amp, eq, pct) = unescaped_range c e in rw e ((amp, eq), encode-NoSeparator s h.1)
  | inr e ↦ rw e (
    (λ q. absurd (omega arith), λ q. absurd (omega arith)),
    (
      hex_range (c / 16) (omega arith),
      (hex_range (c % 16) (omega arith), encode-NoSeparator s h.1),
    ),
  )
]

-- `decodeURIComponent(encodeURIComponent(s))` is `s`.
pub unescape-encode : (s : List ℕ) → IsBytes s → unescape plain (encode_uri_component s) ≡ s
unfolding unescape encode_uri_component
unescape-encode [] h = refl
unescape-encode (c ∷ s) h = elim (Bool-cases (is_unescaped c)) [
  | inl e ↦
      let (amp, eq, pct) = unescaped_range c e in
      let ih = unescape-encode s h.1 in rw e (ground (arith, ih, pct))
  | inr e ↦
      rw
        (
          e,
          unhex-hex (c / 16) (omega arith),
          unhex-hex (c % 16) (omega arith),
          unescape-encode s h.1,
        )
        (ap (λ d. d ∷ s) (omega arith))
]

-- A plain text is read as it stands.
pub unescape_of_IsPlain : (s : List ℕ) → IsPlain s → unescape plain s ≡ s
unfolding unescape
unescape_of_IsPlain [] h = refl
unescape_of_IsPlain (c ∷ s) h = ground (arith, unescape_of_IsPlain s h.1, h.0.2)

-- A query is cut at the `&` that joins two parts of which the first has none, and a part at its
-- first `=`.
pub split_on-append :
    (a b : List ℕ) → All (λ c. c ≢ 38) a → split_on 38 (a ++ 38 ∷ b) ≡ a ∷ split_on 38 b
unfolding split_on
split_on-append [] b h = refl
split_on-append (c ∷ a) b h = ground (arith, split_on-append a b h.1, h.0)

pub split_on_whole : (a : List ℕ) → All (λ c. c ≢ 38) a → split_on 38 a ≡ a ∷ []
unfolding split_on
split_on_whole [] h = refl
split_on_whole (c ∷ a) h = ground (arith, split_on_whole a h.1, h.0)

pub cut-append : (a b : List ℕ) → All (λ c. c ≢ 61) a → cut 61 (a ++ 61 ∷ b) ≡ (a, b)
unfolding cut
cut-append [] b h = refl
cut-append (c ∷ a) b h = ground (arith, cut-append a b h.1, h.0)
