-- ===== src/SignIn/Secrets.antt =====
-- The stored password and the form (`Content` of SignInPage.tsx).
use web_ssh_tool.Common.{
  ◌≡◌, ap, ◌∙◌, ◌⊎◌, inl, inr, true, false, ◌&&◌, none, some, List, [], ◌∷◌, arith, if◌then◌else◌,
  Bool-cases,
}
use web_ssh_tool.Common.Text.{Text}
use web_ssh_tool.Settings.{
  Storage, Context, context, is_some, set_ssh_user_name, set_ssh_password, set_remember_password,
}
use web_ssh_tool.Settings.Storing.{user_change, password_change, remember_change, context-apply}
use web_ssh_tool.SignIn.{
  Form, refused, accepted, undecodable, create, submit, answered, mount, toggle_remember, Input,
  submitted, toggled, answer, typed_username, typed_password, step, run, or_empty, type_username,
  type_password,
}

-- A password is kept only while the user wants it to be.
abbrev pub IsDiscreet : Context → Type 0
IsDiscreet c = (c.remember_password ≡ true) ⊎ (c.ssh_password ≡ none)

forgotten : (s : Storage) → IsDiscreet (context (set_ssh_password none s))
forgotten s = inr (ap (λ (c : Context). c.ssh_password) (context-apply (password_change none) s))

storage-mount :
    (f : Form)
    → (mount f).storage ≡ (
        if (context f.storage).remember_password
        then f.storage
        else set_ssh_password none f.storage)
unfolding mount submit
storage-mount f = ground arith

mount-IsDiscreet : (f : Form) → IsDiscreet (context (mount f).storage)
mount-IsDiscreet f = elim (Bool-cases (context f.storage).remember_password) [
  | inl e ↦ rw (storage-mount f, e) (inl e)
  | inr e ↦ rw (storage-mount f, e) (forgotten f.storage)
]

remembered : (s : Storage) → IsDiscreet (context (set_remember_password true s))
remembered s =
    inl (ap (λ (c : Context). c.remember_password) (context-apply (remember_change true) s))

toggled-IsDiscreet : (f : Form) → IsDiscreet (context (toggle_remember f).storage)
unfolding toggle_remember
toggled-IsDiscreet f = elim (Bool-cases (context f.storage).remember_password) [
  | inl e ↦ rw e (forgotten (set_remember_password false f.storage))
  | inr e ↦ rw e (remembered f.storage)
]

named-IsDiscreet :
    (u : Text) (s : Storage)
    → IsDiscreet (context s)
    → IsDiscreet (context (set_ssh_user_name (some u) s))
named-IsDiscreet u s d = rw (context-apply (user_change (some u)) s) d

accepted-IsDiscreet :
    (u p : Text) (f : Form)
    → IsDiscreet (context f.storage)
    → IsDiscreet (context (answered u p accepted f).storage)
unfolding answered
accepted-IsDiscreet u p f d =
    let named = set_ssh_user_name (some u) f.storage in
    elim (Bool-cases (context named).remember_password) [
      | inl e ↦ rw e (
          inl (
            ap (λ (c : Context). c.remember_password)
              (context-apply (password_change (some p)) named)
            ∙ e))
      | inr e ↦ rw e (named-IsDiscreet u f.storage d)
    ]

step-IsDiscreet :
    (i : Input) (f : Form)
    → IsDiscreet (context f.storage)
    → IsDiscreet (context (step i f).storage)
unfolding step
step-IsDiscreet submitted f d = unfold submit in ground arith
step-IsDiscreet toggled f d = toggled-IsDiscreet f
step-IsDiscreet (answer u p (refused e)) f d = unfold answered in d
step-IsDiscreet (answer u p undecodable) f d = unfold answered in d
step-IsDiscreet (answer u p accepted) f d = accepted-IsDiscreet u p f d
step-IsDiscreet (typed_username t) f d = unfold type_username in d
step-IsDiscreet (typed_password t) f d = unfold type_password in d

run-IsDiscreet :
    (is : List Input) (f : Form)
    → IsDiscreet (context f.storage)
    → IsDiscreet (context (run is f).storage)
unfolding run
run-IsDiscreet [] f d = d
run-IsDiscreet (i ∷ is) f d = run-IsDiscreet is (step i f) (step-IsDiscreet i f d)

-- Whatever the storage held, once the form is mounted a password is stored only while the user
-- wants it to be remembered, through all submissions, answers and changes of the fields and of the
-- checkbox; and mounting signs in by itself exactly if the password is to be remembered and both
-- fields are stored, with these fields.
pub run-mount :
    (s : Storage) (is : List Input)
    → IsDiscreet (context (run is (mount (create s))).storage)
      × ((mount (create s)).sent ≡ (
          if (context s).remember_password
            && (is_some (context s).ssh_user_name && is_some (context s).ssh_password)
          then (or_empty (context s).ssh_user_name, or_empty (context s).ssh_password) ∷ []
          else []))
unfolding mount create submit
run-mount s is = (run-IsDiscreet is (mount (create s)) (mount-IsDiscreet (create s)), ground arith)
