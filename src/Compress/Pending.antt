-- ===== src/Compress/Pending.antt =====
-- The tags of web/src/workers/Compress.ts and the way of an answer to its request.
use web_ssh_tool.Common.{
  ℕ, ◌+◌, ◌≡◌, ◌≢◌, refl, Option, none, some, List, [], ◌∷◌, ◌∙◌, arith, Bool-cases, Option-cases,
  inl, inr, ==_refl, All,
}
use web_ssh_tool.Common.Keyed
use web_ssh_tool.Common.Keyed.{Below, Distinct}
use web_ssh_tool.Compress.{
  Pool, Message, settle, deliver, on_message, on_close, request, Event, ask, message, close, step,
  run,
}

-- Every tag in the map was handed out before, and none stands there twice.
pub record IsFresh {C : Type 0} (p : Pool C) : Type 0 where
  pub below : Below p.tag p.suspend
  pub distinct : Distinct p.suspend

module _ {C : Type 0} where
  request-IsFresh : (c : C) (p : Pool C) → IsFresh p → IsFresh (request c p).0
  unfolding request
  request-IsFresh c p f = elim (Bool-cases p.closed) [
    | inl e ↦ simp e f
    | inr e ↦ simp e (record {
      below =
          Keyed.Below-set (p.tag + 1) p.tag c p.suspend
            (Keyed.Below-weaken p.tag (p.tag + 1) p.suspend f.below (omega arith)) (omega arith);
      distinct = Keyed.Distinct-set p.tag c p.suspend f.distinct;
    })
  ]

  get-request :
      (c : C) (p : Pool C) (t : ℕ)
      → (request c p).1 ≡ some t
      → Keyed.get t (request c p).0.suspend ≡ some c
  unfolding request
  get-request c p t h = ground (arith, Keyed.get-set p.tag t c p.suspend)

module _ {C D E : Type 0} where
  on_message-IsFresh : (msg : Message D E) (p : Pool C) → IsFresh p → IsFresh (on_message msg p).0
  unfolding on_message
  on_message-IsFresh msg p f = elim (Option-cases (Keyed.get msg.tag p.suspend)) [
    | inl e ↦ rw (e, deliver) f
    | inr (c, e) ↦
        rw (e, deliver)
          (record {
            below = Keyed.Below-delete p.tag msg.tag p.suspend f.below;
            distinct = Keyed.Distinct-delete msg.tag p.suspend f.distinct;
          })
  ]

  pub step-IsFresh : (e : Event C D E) (p : Pool C) → IsFresh p → IsFresh (step e p).0
  unfolding step on_close
  step-IsFresh (ask c) p f = request-IsFresh c p f
  step-IsFresh (message msg) p f = on_message-IsFresh msg p f
  step-IsFresh (close e) p f = record { below = tt; distinct = tt }

  -- Whatever happens, the map holds only tags that were handed out, each once.
  pub run-IsFresh : (es : List (Event C D E)) (p : Pool C) → IsFresh p → IsFresh (run es p).0
  unfolding run
  run-IsFresh [] p f = f
  run-IsFresh (e ∷ es) p f = run-IsFresh es (step e p).0 (step-IsFresh e p f)

  -- The event neither answers the tag nor ends the worker.
  abbrev pub Spares : ℕ → Event C D E → Type 0
  Spares t (ask c) = Unit
  Spares t (message msg) = msg.tag ≢ t
  Spares t (close e) = ⊥

  deliver_waits :
      (t : ℕ) (c : C) (o : Option C) (msg : Message D E) (p : Pool C)
      → IsFresh p
      → msg.tag ≢ t
      → Keyed.get t p.suspend ≡ some c
      → Keyed.get t (deliver o msg p).0.suspend ≡ some c
  unfolding deliver
  deliver_waits t c none msg p f ne h = h
  deliver_waits t c (some d) msg p f ne h =
      ground (arith, Keyed.get-delete msg.tag t p.suspend f.distinct)

  step_waits :
      (t : ℕ) (c : C) (e : Event C D E) (p : Pool C)
      → IsFresh p
      → Spares t e
      → Keyed.get t p.suspend ≡ some c
      → Keyed.get t (step e p).0.suspend ≡ some c
  unfolding step request on_message
  step_waits t c (ask d) p f s h =
      ground
        (arith, Keyed.get-set p.tag t d p.suspend, Keyed.lt_of_get p.tag t p.suspend c f.below h)
  step_waits t c (message msg) p f s h = deliver_waits t c _ msg p f s h
  step_waits t c (close e) p f s h = absurd s

  run_waits :
      (t : ℕ) (c : C) (es : List (Event C D E)) (p : Pool C)
      → IsFresh p
      → All (Spares t) es
      → Keyed.get t p.suspend ≡ some c
      → Keyed.get t (run es p).0.suspend ≡ some c
  unfolding run
  run_waits t c [] p f s h = h
  run_waits t c (e ∷ es) p f s h =
      run_waits t c es (step e p).0 (step-IsFresh e p f) s.1 (step_waits t c e p f s.0 h)

  on_message_waiting :
      (c : C) (msg : Message D E) (p : Pool C)
      → IsFresh p
      → Keyed.get msg.tag p.suspend ≡ some c
      → ((on_message msg p).1 ≡ settle c msg ∷ [])
        × (Keyed.get msg.tag (on_message msg p).0.suspend ≡ none)
  unfolding on_message
  on_message_waiting c msg p f h =
      rw (h, deliver)
        (refl, Keyed.get-delete msg.tag msg.tag p.suspend f.distinct ∙ rw (==_refl msg.tag))

  -- A request that got a tag is settled by the first message with this tag, however many other
  -- requests and messages come between: `resolve` or `reject` of that request is called and no
  -- other, and the tag is no longer waiting.
  pub answer_reaches_request :
      (c : C) (p : Pool C) (es : List (Event C D E)) (msg : Message D E)
      → IsFresh p
      → (request c p).1 ≡ some msg.tag
      → All (Spares msg.tag) es
      → ((on_message msg (run es (request c p).0).0).1 ≡ settle c msg ∷ [])
        × (Keyed.get msg.tag (on_message msg (run es (request c p).0).0).0.suspend ≡ none)
  answer_reaches_request c p es msg f h s =
      let f' = request-IsFresh c p f in
      on_message_waiting c msg (run es (request c p).0).0 (run-IsFresh es (request c p).0 f')
        (run_waits msg.tag c es (request c p).0 f' s (get-request c p msg.tag h))
