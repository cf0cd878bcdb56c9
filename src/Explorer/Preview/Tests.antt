-- ===== src/Explorer/Preview/Tests.antt =====
-- `PreviewWindow` of RequestPreviewDialog.tsx on concrete files.
use web_ssh_tool.Common.{ℕ, ◌≡◌, refl, Bool, true, some, [], ◌∷◌, ◌++◌, arith, length}
use web_ssh_tool.Common.Keyed
use web_ssh_tool.Common.Text.{Text, lit, eq_text}
use web_ssh_tool.Explorer.Preview.{
  Window, show, url_ready, progress, load, choose_decode, sent, idle, step, run, mount,
}
use web_ssh_tool.Explorer.Preview.Fresh.{Reach, here, next, window_shows_its_file}
use web_ssh_tool.Explorer.Preview.Loads.{shown_file_loads}

abbrev first : Text
first = lit "/a"

abbrev second : Text
second = lit "/bc"

-- A server whose answer is the length of the path.
abbrev Length : Text → ℕ → Type 0
Length p b = b ≡ length p

abbrev exists : Text → Bool
exists name = eq_text name (lit "utf-8")

abbrev one : Window ℕ
one = mount (some first)

abbrev two : Window ℕ
two = step exists (show (some second)) (step exists (url_ready 0) one)

abbrev answered : Window ℕ
answered = step exists (load 1 3) (step exists (url_ready 1) two)

loads_second : Keyed.get 1 (step exists (url_ready 1) two).runs ≡ some (sent second)
unfolding step mount Keyed.get Keyed.set
loads_second = refl

answered-Reach : Reach Length exists one answered
answered-Reach =
    next (next (next (next here (url_ready 0) tt) (show (some second)) tt) (url_ready 1) tt)
      (load 1 3) (λ p h. ground (arith, loads_second))

answered_idle : answered.loading ≡ idle
unfolding step mount Keyed.get Keyed.set
answered_idle = refl

answered_body : answered.body ≡ some 3
unfolding step mount Keyed.get Keyed.set
answered_body = refl

window_shows_its_file_example : (p : Text) × (answered.path ≡ some p) × Length p 3
window_shows_its_file_example =
    window_shows_its_file Length exists (some first) answered 3 answered-Reach answered_idle
      answered_body

abbrev loaded : Window ℕ
loaded =
    run exists
      (show (some second)
        ∷ ((url_ready 0 ∷ progress 0 1 2 true ∷ [])
            ++ (url_ready 1 ∷ (choose_decode (lit "utf-8") ∷ [] ++ load 1 3 ∷ []))))
      one

shown_file_loads_example :
    (loaded.loading ≡ idle) × (loaded.body ≡ some 3) × (loaded.path ≡ some second)
unfolding mount
shown_file_loads_example =
    shown_file_loads exists second 3 (url_ready 0 ∷ progress 0 1 2 true ∷ [])
      (choose_decode (lit "utf-8") ∷ []) one (omega arith, (tt, tt)) (tt, tt)

-- The URL of the first file is still awaited while the second is loaded.
abbrev overtaken : Window ℕ
overtaken = step exists (url_ready 1) (step exists (show (some second)) one)
