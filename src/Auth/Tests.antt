-- ===== src/Auth/Tests.antt =====
-- Runs of the modelled `Auth` of web/src/pages/SignInPage.tsx.
use web_ssh_tool.Common.{ℕ, ◌≡◌, refl, [], ◌∷◌, arith, inl}
use web_ssh_tool.Auth.{Auth, tagged, callback, remove, rest_start, rest_send, on_message}
use web_ssh_tool.Auth.Steps.{IsWellFormed, start, send, receive, Step-IsWellFormed}
use web_ssh_tool.Auth.Correlation.{here, next, response_reaches_request}

abbrev fresh : Auth ℕ ℕ
fresh = record { tag = 0; callbacks = []; started = []; sent = [] }

fresh-IsWellFormed : IsWellFormed fresh
fresh-IsWellFormed = record {
  below = tt;
  distinct = tt;
  started_below = tt;
  started_absent = tt;
  started_once = tt;
}

-- Two calls of `rest` began.
abbrev two : Auth ℕ ℕ
two = (rest_start (rest_start fresh).0).0

two-IsWellFormed : IsWellFormed two
two-IsWellFormed =
    Step-IsWellFormed {R = ℕ} {D = ℕ} (start refl)
      (Step-IsWellFormed {R = ℕ} {D = ℕ} (start refl) fresh-IsWellFormed)

-- The second is sent first; then the first is sent and gets its response.
abbrev later : Auth ℕ ℕ
later = (on_message {R = ℕ} {D = ℕ} (tagged 0 5) (rest_send 0 20 6 (rest_send 1 21 7 two))).0

response_reaches_request_example :
    ((on_message {R = ℕ} {D = ℕ} (tagged 1 8) later).1 ≡ callback 21 8 ∷ [])
    × ((on_message {R = ℕ} {D = ℕ} (tagged 1 9) (on_message {R = ℕ} {D = ℕ} (tagged 1 8) later).0).1
        ≡ [])
unfolding rest_start rest_send remove
response_reaches_request_example =
    response_reaches_request 1 21 7 8 9 two later two-IsWellFormed (inl refl)
      (next (next here (send 0 20 6 (inl refl) refl) tt) (receive (tagged 0 5) refl) (omega arith))
