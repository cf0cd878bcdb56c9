-- ===== src/Explorer/Frame/Tests.antt =====
-- The frame of PreviewDialog.tsx on concrete files.
use web_ssh_tool.Common.{ℕ, ◌≡◌, refl, true, some, arith, length}
use web_ssh_tool.Common.Keyed
use web_ssh_tool.Common.Text.{Text, lit, eq_text}
use web_ssh_tool.Explorer.Frame.{Frame, show, url_ready, url_failed, frame_loaded, step, create}
use web_ssh_tool.Explorer.Frame.Page.{Reach, here, next}

-- A server whose URL is the length of the path.
abbrev Length : Text → ℕ → Type 0
Length p u = u ≡ length p

abbrev opened : Frame ℕ
opened = step (show (some (lit "/bc"))) (step (show (some (lit "/a"))) create)

-- The first URL comes late, and the second one after it.
abbrev late : Frame ℕ
late = step (url_ready 1 3) (step (url_ready 0 2) opened)

first_asked : Keyed.get 0 opened.waiting ≡ some (lit "/a")
unfolding step create Keyed.get Keyed.set eq_text
first_asked = refl

second_asked : Keyed.get 1 (step (url_ready 0 2) opened).waiting ≡ some (lit "/bc")
unfolding step create Keyed.get Keyed.set Keyed.delete eq_text
second_asked = refl

late-Reach : Reach Length create late
late-Reach =
    next
      (next (next (next here (show (some (lit "/a"))) tt) (show (some (lit "/bc"))) tt)
        (url_ready 0 2) (λ p h. ground (arith, first_asked)))
      (url_ready 1 3) (λ p h. ground (arith, second_asked))

-- The URL of a second file cannot be had: the page of the first one stays, under the path of the
-- second, and it is loading.
failed : Frame ℕ
failed = step (url_failed 1) (
    step (show (some (lit "/bc")))
      (step frame_loaded (step (url_ready 0 2) (step (show (some (lit "/a"))) create))))

stale_page : (failed.url ≡ some 2) × (failed.path ≡ some (lit "/bc")) × (failed.loading ≡ true)
unfolding failed step create Keyed.get Keyed.set Keyed.delete eq_text
stale_page = (refl, refl, refl)
