-- ===== src/Auth/Urls/Queries.antt =====
-- The query strings of the URLs in web/src/pages/SignInPage.tsx, as a server reads them.
use mathlib.Core.List.{append-nil, append_assoc}
use web_ssh_tool.Common.Split.{split_on}
use web_ssh_tool.Common.{
  ◌≡◌, ◌≢◌, refl, ap, sym, ◌∙◌, Option, none, some, List, [], ◌∷◌, ◌++◌, map, arith, All, All-map,
  All-append,
}
use web_ssh_tool.Common.Text.{Text, lit}
use web_ssh_tool.Auth.Uri.{encode_uri_component, read_param, parse_query}
use web_ssh_tool.Auth.Uri.Laws.{
  IsBytes, IsPlain, encode-NoSeparator, unescape-encode, unescape_of_IsPlain, split_on-append,
  split_on_whole, cut-append,
}
use web_ssh_tool.Auth.Urls.{joined, FilePath, one, many, Anchor, download_anchor, preview_query}
use web_ssh_tool.Auth.Uri.{unescape, plain}

-- A parameter as it stands in a query, and several behind one another.
abbrev piece : Text × Text → Text
piece p = p.0 ++ 61 ∷ encode_uri_component p.1

abbrev render : List (Text × Text) → Text
render [] = []
render (p ∷ ps) = 38 ∷ (piece p ++ render ps)

abbrev IsParam : Text × Text → Type 0
IsParam p = IsPlain p.0 × IsBytes p.1

piece-NoAmp : (p : Text × Text) → IsParam p → All (λ c. c ≢ 38) (piece p)
piece-NoAmp p h =
    All-append (λ c. c ≢ 38) p.0 (61 ∷ encode_uri_component p.1) (All-map _ _ (λ c q. q.0) p.0 h.0)
      (λ e. absurd (omega arith), All-map _ _ (λ c q. q.0) _ (encode-NoSeparator p.1 h.1))

split_on-render :
    (first : Text) (ps : List (Text × Text))
    → All (λ c. c ≢ 38) first
    → All IsParam ps
    → split_on 38 (first ++ render ps) ≡ first ∷ map piece ps
split_on-render first [] h k = rw append-nil (split_on_whole first h)
split_on-render first (p ∷ ps) h k =
    split_on-append first (piece p ++ render ps) h
    ∙ ap (λ r. first ∷ r) (split_on-render (piece p) ps (piece-NoAmp p k.0) k.1)

read_param-raw :
    (k v w : Text) → IsPlain k → unescape plain v ≡ w → read_param (k ++ 61 ∷ v) ≡ (k, w)
unfolding read_param
read_param-raw k v w h e = rw (cut-append k v (All-map _ _ (λ c q. q.1) k h), e)

map-read_param : (ps : List (Text × Text)) → All IsParam ps → map read_param (map piece ps) ≡ ps
map-read_param [] h = refl
map-read_param (p ∷ ps) h =
    rw (read_param-raw p.0 _ p.1 h.0.0 (unescape-encode p.1 h.0.1), map-read_param ps h.1)

-- A query whose first parameter is the token as it stands, and whose others are escaped.
parse_query-render :
    (token : Text) (ps : List (Text × Text))
    → IsPlain token
    → All IsParam ps
    → parse_query ((lit "t=" ++ token) ++ render ps) ≡ (lit "t", token) ∷ ps
unfolding parse_query
parse_query-render token ps h k =
    ap (map read_param) (
      split_on-render (lit "t=" ++ token) ps
        (λ e. absurd (omega arith), (λ e. absurd (omega arith), All-map _ _ (λ c q. q.0) token h))
        k)
    ∙ rw (
      read_param-raw (lit "t") token token
          ((λ e. absurd (omega arith), λ e. absurd (omega arith), λ e. absurd (omega arith)), tt)
          (unescape_of_IsPlain token h),
      map-read_param ps k,
    )

-- The parameters that a list of values makes, all under one key.
abbrev pub under : Text → List Text → List (Text × Text)
under key vs = map (λ v. (key, v)) vs

abbrev pub name_param : Option Text → List (Text × Text)
name_param none = []
name_param (some n) = (lit "n", n) ∷ []

abbrev pub IsName : Option Text → Type 0
IsName none = Unit
IsName (some n) = IsBytes n

joined-eq-render :
    (k : Text) (vs : List Text) → joined (38 ∷ (k ++ 61 ∷ [])) vs ≡ render (under k vs)
unfolding joined
joined-eq-render k [] = refl
joined-eq-render k (v ∷ vs) =
    ap (λ r. 38 ∷ r) (rw (joined-eq-render k vs, append_assoc k (61 ∷ []) (encode_uri_component v)))

under-IsParam : (k : Text) (vs : List Text) → IsPlain k → All IsBytes vs → All IsParam (under k vs)
under-IsParam k [] h hs = tt
under-IsParam k (v ∷ vs) h hs = ((h, hs.0), under-IsParam k vs h hs.1)

-- The paths that a download asks for.
abbrev pub paths : FilePath → List Text
paths (one p) = p ∷ []
paths (many ps) = ps

-- A download of no path does nothing. Any other asks for each path in its order under `p`, and is
-- saved as a bundle exactly if it was given a list.
abbrev pub Asks : Text → FilePath → Option Anchor → Type 0
Asks token (many []) a = a ≡ none
Asks token (one p) a =
    (r : Anchor) × (a ≡ some r)
    × (r.name ≡ [])
    × (parse_query r.query ≡ (lit "t", token) ∷ under (lit "p") (p ∷ []))
Asks token (many (p ∷ ps)) a =
    (r : Anchor) × (a ≡ some r)
    × (r.name ≡ lit "bundle.zip")
    × (parse_query r.query ≡ (lit "t", token) ∷ under (lit "p") (p ∷ ps))

parse_query-joined :
    (token k : Text) (vs : List Text)
    → IsPlain token
    → IsPlain k
    → All IsBytes vs
    → parse_query ((lit "t=" ++ token) ++ joined (38 ∷ (k ++ 61 ∷ [])) vs)
      ≡ (lit "t", token) ∷ under k vs
parse_query-joined token k vs h hk hv =
    ap (λ r. parse_query ((lit "t=" ++ token) ++ r)) (joined-eq-render k vs)
    ∙ parse_query-render token (under k vs) h (under-IsParam k vs hk hv)

joined_one : (k v : Text) → joined k (v ∷ []) ≡ k ++ encode_uri_component v
unfolding joined
joined_one k v = append-nil (k ++ encode_uri_component v)

-- The query of a download, or of a preview, reads back as the token and the paths that it was
-- made of, whatever bytes they hold, if the token has no `&`, `=` or `%`; the anchor's name tells
-- one path from a list, and no anchor is clicked for an empty list.
pub parse_query-download :
    (token : Text) (f : FilePath) (path : Text)
    → IsPlain token
    → All IsBytes (paths f)
    → IsBytes path
    → Asks token f (download_anchor token f)
      × (parse_query (preview_query token path) ≡ (lit "t", token) ∷ (lit "v", path) ∷ [])
unfolding download_anchor preview_query
parse_query-download token f path h hs hp = (
  asks f hs,
  ap (λ r. parse_query ((lit "t=" ++ token) ++ r)) (sym (joined_one (lit "&v=") path))
      ∙ parse_query-joined token (lit "v") (path ∷ []) h (omega arith) (hp, tt),
)
  where
    asks : (f : FilePath) → All IsBytes (paths f) → Asks token f (download_anchor token f)
    asks (one p) hs = (
      _,
      refl,
      refl,
      ap (λ r. parse_query ((lit "t=" ++ token) ++ r)) (sym (joined_one (lit "&p=") p))
          ∙ parse_query-joined token (lit "p") (p ∷ []) h (omega arith) hs,
    )
    asks (many []) hs = refl
    asks (many (p ∷ ps)) hs =
        (_, refl, refl, parse_query-joined token (lit "p") (p ∷ ps) h (omega arith) hs)
