-- ===== src/Auth/Transfer/Tests.antt =====
-- An upload of the class Auth (web/src/pages/SignInPage.tsx).
use web_ssh_tool.Common.{ℕ, ◌≡◌, refl, none, some, []}
use web_ssh_tool.Common.Text.{lit}
use web_ssh_tool.Auth.Transfer.{
  Upload, threw, refused, abort, load, pending, rejected, not_json, start_upload, on_event,
}

abbrev upload : Upload ℕ
upload = record { url = lit "https://h/upload?t=1"; disposition = []; settled = pending }

-- The first event settles the promise.
settled_once :
    (on_event (λ t. some 1) abort (on_event (λ t. none) (load []) upload)).settled
    ≡ rejected not_json
unfolding on_event
settled_once = refl

no_token : start_upload {E = ℕ} {V = ℕ} (λ t. t) (lit "h") (refused 5) [] none ≡ threw 5
unfolding start_upload
no_token = refl
