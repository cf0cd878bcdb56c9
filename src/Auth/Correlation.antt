-- ===== src/Auth/Correlation.antt =====
-- Requests of `Auth` and the responses to them (`rest` and the listener in
-- web/src/pages/SignInPage.tsx).
use web_ssh_tool.Common.{ℕ, ◌≡◌, ◌≢◌, refl, some, [], ◌∷◌, ◌∙◌, arith, ==_refl}
use web_ssh_tool.Common.Keyed
use web_ssh_tool.Common.Keyed.{Absent}
use web_ssh_tool.Auth.{
  Auth, undecodable, tagged, event, neither, callback, rest_start, rest_send, rest_fail, on_message,
}
use web_ssh_tool.Auth.Steps.{
  Listed, at_listed, IsWellFormed, Step, start, send, fail, receive, Step-IsWellFormed,
}

module _ {C Q R D : Type 0} where
  -- The step is no response with the tag.
  abbrev pub Spares : ℕ → {a b : Auth C Q} → Step R D a b → Type 0
  Spares t (receive (tagged u r) e) = u ≢ t
  Spares t _ = Unit

-- Steps of which none is a response with the tag.
pub data Quiet {C Q : Type 0} (R D : Type 0) (t : ℕ) (a : Auth C Q) : Auth C Q → Type 0 where
  here : Quiet R D t a a
  next : {b c : Auth C Q} → Quiet R D t a b → (s : Step R D b c) → Spares t s → Quiet R D t a c

module _ {C Q : Type 0} where
  send_waits :
      (t u : ℕ) (c d : C) (q : Q) (a : Auth C Q)
      → IsWellFormed a
      → Listed u a.started
      → Keyed.get t a.callbacks ≡ some c
      → Keyed.get t (rest_send u d q a).callbacks ≡ some c
  unfolding rest_send
  send_waits t u c d q a v l h = ground (
    arith,
    Keyed.get-set u t d a.callbacks,
    Keyed.get_of_Absent u a.callbacks
        (at_listed (λ w. Absent w a.callbacks) u a.started v.started_absent l),
  )

module _ {C Q R D : Type 0} where
  step_waits :
      (t : ℕ) (c : C) (a b : Auth C Q) (s : Step R D a b)
      → IsWellFormed a
      → Spares t s
      → Keyed.get t a.callbacks ≡ some c
      → Keyed.get t b.callbacks ≡ some c
  unfolding rest_start rest_fail on_message
  step_waits t c a b (start e) v n h = rw e h
  step_waits t c a b (send u d q l e) v n h = rw e (send_waits t u c d q a v l h)
  step_waits t c a b (fail u l e) v n h = rw e h
  step_waits t c a b (receive (tagged u r) e) v n h =
      rw e (ground (arith, Keyed.get-delete u t a.callbacks v.distinct))
  step_waits t c a b (receive undecodable e) v n h = rw e h
  step_waits t c a b (receive (event m) e) v n h = rw e h
  step_waits t c a b (receive neither e) v n h = rw e h

  quiet_waits :
      (t : ℕ) (c : C) (a b : Auth C Q)
      → IsWellFormed a
      → Keyed.get t a.callbacks ≡ some c
      → Quiet R D t a b
      → IsWellFormed b × (Keyed.get t b.callbacks ≡ some c)
  quiet_waits t c a _ v h here = (v, h)
  quiet_waits t c a b v h (next {b = m} q s n) =
      let (v', h') = quiet_waits t c a m v h q in
      (Step-IsWellFormed s v', step_waits t c m b s v' n h')

  -- A request that was sent gets its own response: after any further calls of `rest`, sent in any
  -- order, and any messages but a response with its tag, that response calls its callback and
  -- nothing else, and a second response with the tag calls nothing.
  pub response_reaches_request :
      (t : ℕ) (c : C) (q : Q) (r r' : R) (a b : Auth C Q)
      → IsWellFormed a
      → Listed t a.started
      → Quiet R D t (rest_send t c q a) b
      → ((on_message {D = D} (tagged t r) b).1 ≡ callback c r ∷ [])
        × ((on_message {D = D} (tagged t r') (on_message {D = D} (tagged t r) b).0).1 ≡ [])
  unfolding on_message rest_send
  response_reaches_request t c q r r' a b v l quiet =
      let v0 : IsWellFormed (rest_send t c q a) =
        Step-IsWellFormed {R = R} {D = D} (send t c q l refl) v in
      let (v', h) =
        quiet_waits t c (rest_send t c q a) b v0 (Keyed.get-set t t c a.callbacks ∙ rw (==_refl t))
          quiet in
      (rw h, rw (Keyed.get-delete t t b.callbacks v'.distinct, ==_refl t))
