-- ===== src/Auth/Steps.antt =====
-- The steps of an `Auth` (web/src/pages/SignInPage.tsx) and the invariant on its tags.
use web_ssh_tool.Common.{
  ℕ, ◌+◌, ◌<◌, ◌≡◌, ◌≢◌, List, [], ◌∷◌, ◌⊎◌, inl, inr, sym, arith, All, All-map,
}
use web_ssh_tool.Common.Keyed
use web_ssh_tool.Common.Keyed.{Below, Distinct, Absent}
use web_ssh_tool.Auth.{
  Auth, Incoming, undecodable, tagged, event, neither, remove, rest_start, rest_send, rest_fail,
  on_message,
}

abbrev pub Listed : ℕ → List ℕ → Type 0
Listed t [] = ⊥
Listed t (u ∷ us) = (u ≡ t) ⊎ Listed t us

abbrev Unlike : ℕ → List ℕ → Type 0
Unlike t us = All (λ u. u ≢ t) us

abbrev NoDup : List ℕ → Type 0
NoDup [] = Unit
NoDup (u ∷ us) = Unlike u us × NoDup us

All-remove : (P : ℕ → Type 0) (t : ℕ) (us : List ℕ) → All P us → All P (remove t us)
unfolding remove
All-remove P t [] h = tt
All-remove P t (u ∷ us) h = ground (arith, All-remove P t us h.1)

NoDup-remove : (t : ℕ) (us : List ℕ) → NoDup us → NoDup (remove t us)
unfolding remove
NoDup-remove t [] h = tt
NoDup-remove t (u ∷ us) h = ground (arith, NoDup-remove t us h.1, All-remove (λ v. v ≢ u) t us h.0)

Unlike-remove : (t : ℕ) (us : List ℕ) → NoDup us → Unlike t (remove t us)
unfolding remove
Unlike-remove t [] h = tt
Unlike-remove t (u ∷ us) h = ground (arith, Unlike-remove t us h.1)

pub at_listed : (P : ℕ → Type 0) (t : ℕ) (us : List ℕ) → All P us → Listed t us → P t
at_listed P t [] h l = absurd l
at_listed P t (u ∷ us) h (inl e) = rw (← e) h.0
at_listed P t (u ∷ us) h (inr l) = at_listed P t us h.1 l

-- No tag is used twice: neither by a waiting callback nor by a request that is being encoded.
pub record IsWellFormed {C Q : Type 0} (a : Auth C Q) : Type 0 where
  pub below : Below a.tag a.callbacks
  pub distinct : Distinct a.callbacks
  pub started_below : All (λ t. t < a.tag) a.started
  pub started_absent : All (λ t. Absent t a.callbacks) a.started
  pub started_once : NoDup a.started

-- One thing that happens to an `Auth`: a call of `rest` begins, one that was encoded is sent, one
-- that could not be encoded fails, or a message comes.
pub data Step {C Q : Type 0} (R D : Type 0) (a b : Auth C Q) : Type 0 where
  start : b ≡ (rest_start a).0 → Step R D a b
  send : (t : ℕ) (c : C) (q : Q) → Listed t a.started → b ≡ rest_send t c q a → Step R D a b
  fail : (t : ℕ) → Listed t a.started → b ≡ rest_fail t a → Step R D a b
  receive : (m : Incoming R D) → b ≡ (on_message m a).0 → Step R D a b

module _ {C : Type 0} where
  Absent-after_set :
      (t : ℕ) (c : C) (m : List (ℕ × C)) (us : List ℕ)
      → All (λ u. Absent u m) us
      → Unlike t us
      → All (λ u. Absent u (Keyed.set t c m)) us
  Absent-after_set t c m [] h ne = tt
  Absent-after_set t c m (u ∷ us) h ne =
      (Keyed.Absent-set u t c m h.0 (λ e. ne.0 (sym e)), Absent-after_set t c m us h.1 ne.1)

module _ {C Q : Type 0} where
  start-IsWellFormed : (a : Auth C Q) → IsWellFormed a → IsWellFormed (rest_start a).0
  unfolding rest_start
  start-IsWellFormed a v = record {
    below = Keyed.Below-weaken a.tag (a.tag + 1) a.callbacks v.below (omega arith);
    distinct = v.distinct;
    started_below = (
      omega arith,
      All-map (λ t. t < a.tag) (λ t. t < a.tag + 1) (λ t h. omega arith) a.started v.started_below,
    );
    started_absent =
        (Keyed.Absent-of_Below a.tag a.tag a.callbacks v.below (omega arith), v.started_absent);
    started_once = (
      All-map (λ t. t < a.tag) (λ t. t ≢ a.tag) (λ t h. omega arith) a.started v.started_below,
      v.started_once,
    );
  }

  send-IsWellFormed :
      (t : ℕ) (c : C) (q : Q) (a : Auth C Q)
      → Listed t a.started
      → IsWellFormed a
      → IsWellFormed (rest_send t c q a)
  unfolding rest_send
  send-IsWellFormed t c q a l v = record {
    below =
        Keyed.Below-set a.tag t c a.callbacks v.below
          (at_listed (λ u. u < a.tag) t a.started v.started_below l);
    distinct = Keyed.Distinct-set t c a.callbacks v.distinct;
    started_below = All-remove (λ u. u < a.tag) t a.started v.started_below;
    started_absent =
        Absent-after_set t c a.callbacks (remove t a.started)
          (All-remove (λ u. Absent u a.callbacks) t a.started v.started_absent)
          (Unlike-remove t a.started v.started_once);
    started_once = NoDup-remove t a.started v.started_once;
  }

  fail-IsWellFormed : (t : ℕ) (a : Auth C Q) → IsWellFormed a → IsWellFormed (rest_fail t a)
  unfolding rest_fail
  fail-IsWellFormed t a v = record {
    below = v.below;
    distinct = v.distinct;
    started_below = All-remove (λ u. u < a.tag) t a.started v.started_below;
    started_absent = All-remove (λ u. Absent u a.callbacks) t a.started v.started_absent;
    started_once = NoDup-remove t a.started v.started_once;
  }

module _ {C Q R D : Type 0} where
  receive-IsWellFormed :
      (m : Incoming R D) (a : Auth C Q) → IsWellFormed a → IsWellFormed (on_message m a).0
  unfolding on_message
  receive-IsWellFormed undecodable a v = v
  receive-IsWellFormed (tagged t r) a v = record {
    below = Keyed.Below-delete a.tag t a.callbacks v.below;
    distinct = Keyed.Distinct-delete t a.callbacks v.distinct;
    started_below = v.started_below;
    started_absent =
        All-map (λ u. Absent u a.callbacks) (λ u. Absent u (Keyed.delete t a.callbacks))
          (λ u h. Keyed.Absent-delete u t a.callbacks h) a.started v.started_absent;
    started_once = v.started_once;
  }
  receive-IsWellFormed (event n) a v = v
  receive-IsWellFormed neither a v = v

  pub Step-IsWellFormed : {a b : Auth C Q} → Step R D a b → IsWellFormed a → IsWellFormed b
  Step-IsWellFormed {a} (start e) v = rw e (start-IsWellFormed a v)
  Step-IsWellFormed {a} (send t c q l e) v = rw e (send-IsWellFormed t c q a l v)
  Step-IsWellFormed {a} (fail t l e) v = rw e (fail-IsWellFormed t a v)
  Step-IsWellFormed {a} (receive m e) v = rw e (receive-IsWellFormed m a v)
