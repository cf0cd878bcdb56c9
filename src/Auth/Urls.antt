-- ===== src/Auth/Urls.antt =====
-- The URLs that `upload`, `download` and `previewUrl` of web/src/pages/SignInPage.tsx ask for.
pub mod Queries
use web_ssh_tool.Common.{Option, none, some, List, [], ◌∷◌, ◌++◌}
use web_ssh_tool.Common.Text.{Text, lit}
use web_ssh_tool.Auth.Uri.{encode_uri_component}

-- `list.map(value => `${key}${encodeURIComponent(value)}`).join('')`
pub joined : Text → List Text → Text
joined key [] = []
joined key (v ∷ vs) = (key ++ encode_uri_component v) ++ joined key vs

pub file_name : Option Text → Text
file_name none = []
file_name (some n) = lit "&n=" ++ encode_uri_component n

-- What stands behind `/upload?`.
pub upload_query : Text → List Text → Option Text → Text
unfolding joined file_name
upload_query token dest filename =
    (lit "t=" ++ token) ++ (joined (lit "&u=") dest ++ file_name filename)

pub upload_url : Text → Text → List Text → Option Text → Text
upload_url host token dest filename =
    lit "https://" ++ (host ++ (lit "/upload?" ++ upload_query token dest filename))

-- The argument of `download`: one path or several.
pub data FilePath : Type 0 where
  one : Text → FilePath
  many : List Text → FilePath

-- The `href` and the `download` attribute of the clicked element; nothing is clicked for no path.
pub record Anchor : Type 0 where
  pub query : Text
  pub name : Text

pub download_anchor : Text → FilePath → Option Anchor
unfolding joined
download_anchor token (one p) =
    some
      (record { query = (lit "t=" ++ token) ++ (lit "&p=" ++ encode_uri_component p); name = [] })
download_anchor token (many []) = none
download_anchor token (many (p ∷ ps)) =
    some (record {
      query = (lit "t=" ++ token) ++ joined (lit "&p=") (p ∷ ps);
      name = lit "bundle.zip";
    })

pub preview_query : Text → Text → Text
preview_query token path = (lit "t=" ++ token) ++ (lit "&v=" ++ encode_uri_component path)
