-- ===== src/Auth/Transfer.antt =====
-- `upload`, `download`, `previewUrl` and `preview` of the class Auth in
-- web/src/pages/SignInPage.tsx, from the answer to their request for a token on.
mod Tests
use web_ssh_tool.Common.{Option, none, some, List, [], ◌∷◌, ◌++◌}
use web_ssh_tool.Common.Text.{Text, lit}
use web_ssh_tool.Auth.Urls.{FilePath, Anchor, upload_url, download_anchor, preview_query}

-- The answer of `rest('token', [])`; an error is thrown again.
pub data Token (E : Type 0) : Type 0 where
  refused : E → Token E
  granted : Text → Token E

pub data Outcome (E A : Type 0) : Type 0 where
  threw : E → Outcome E A
  done : A → Outcome E A

-- Why the promise of an upload is rejected: an event of the request, or an answer that is no JSON.
pub data Reason : Type 0 where
  abort_error unknown_error timeout_error not_json : Reason

-- The promise of an upload, with the URL and the `Content-Disposition` that were sent.
pub data Settled (V : Type 0) : Type 0 where
  pending : Settled V
  resolved : V → Settled V
  rejected : Reason → Settled V

pub record Upload (V : Type 0) : Type 0 where
  pub url : Text
  pub disposition : Text
  pub settled : Settled V

-- An event of the request; the last one comes with `responseText`.
pub data Event : Type 0 where
  abort error timeout : Event
  load : Text → Event

-- The header of an upload; `encodeURI` is the first argument, here and below.
disposition_of : (Text → Text) → Option Text → Text
disposition_of encode_uri none = lit "attachment\"\""
disposition_of encode_uri (some name) =
    lit "attachment\"" ++ (lit "; filename=" ++ (encode_uri name ++ lit "\""))

module _ {E : Type 0} where
  -- The element that is clicked, if there is one.
  pub download : Token E → FilePath → Outcome E (Option Anchor)
  download (refused e) path = threw e
  download (granted token) path = done (download_anchor token path)

  pub preview_url : Text → Token E → Text → Outcome E Text
  preview_url host (refused e) path = threw e
  preview_url host (granted token) path =
      done (lit "https://" ++ (host ++ (lit "/preview?" ++ preview_query token path)))

  module _ {V : Type 0} (encode_uri : Text → Text) where
    -- What is sent for a file.
    pub start_upload : Text → Token E → List Text → Option Text → Outcome E (Upload V)
    unfolding disposition_of
    start_upload host (refused e) dest filename = threw e
    start_upload host (granted token) dest filename = done (record {
      url = upload_url host token dest filename;
      disposition = disposition_of encode_uri filename;
      settled = pending;
    })

module _ {V : Type 0} (parse : Text → Option V) where
  -- `resolve` and `reject` after the first one do nothing.
  settle : Settled V → Settled V → Settled V
  settle pending s = s
  settle (resolved v) s = resolved v
  settle (rejected r) s = rejected r

  parsed : Option V → Settled V
  parsed none = rejected not_json
  parsed (some v) = resolved v

  -- The listeners; `JSON.parse` is the section's parameter.
  pub on_event : Event → Upload V → Upload V
  unfolding settle parsed
  on_event abort u = record u { settled = settle u.settled (rejected abort_error) }
  on_event error u = record u { settled = settle u.settled (rejected unknown_error) }
  on_event timeout u = record u { settled = settle u.settled (rejected timeout_error) }
  on_event (load text) u = record u { settled = settle u.settled (parsed (parse text)) }
