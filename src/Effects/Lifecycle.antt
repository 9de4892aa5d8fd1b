-- ===== src/Effects/Lifecycle.antt =====
-- Every call of the kernel, propose and the outbox included, as a change of the stored intents.
use finite_agent_physics.Prelude.{
  ℕ, ◌≡◌, refl, ap, ◌∙◌, String, Bool, not, Option, none, some, List, [], ◌∷◌, ◌++◌, arith, ◌>>=◌,
  raise_if, is_some, elem, is_empty, eq_iff,
}
use finite_agent_physics.Effects.Types.{
  EffectIntent, Details, Platform, Broker, Operation, ambiguous_commit, value_error,
  idempotency_conflict, integrity_error, key_error,
}
use finite_agent_physics.Effects.Database.{
  World, Kernel, transaction, load, find_intent, read_clock, next_uuid, event_ids,
}
use finite_agent_physics.Effects.Proposals.{
  propose, propose_once, propose_at, insert_proposal, is_malformed, same_operation, new_intent,
  choose_id, prepare, prepare_loaded, acquire_fence, fence_loaded, abort, abort_loaded,
}
use finite_agent_physics.Effects.Approval.{approve, approve_loaded}
use finite_agent_physics.Effects.Commit.{
  commit, commit_loaded, compensate, compensate_loaded, raise_ambiguity,
}
use finite_agent_physics.Effects.Outbox.{mark_outbox_published, acknowledge, publish}
use finite_agent_physics.Effects.Calls.{EffectCall, call, discard}
use finite_agent_physics.Effects.Evolution.{Method, method_of, Evolves-self, Evolution, row}
use finite_agent_physics.Effects.Rows.{
  SameRows, Silent, silent, raise_if-Silent, if-Silent, bind-Silent, load-Silent, announced,
  SameRows-Evolution, then-Evolution, after_unchanged, load_then, transaction-Evolution,
}
use finite_agent_physics.Effects.Machine.{
  prepare_from-Evolution, fence_from-Evolution, abort_from-Evolution, approve_from-Evolution,
}
use finite_agent_physics.Effects.Transitions.{commit_from-Evolution, compensate_from-Evolution}

found-append :
    (k : String) (is js : List EffectIntent) (i : EffectIntent)
    → find_intent k is ≡ some i
    → find_intent k (is ++ js) ≡ some i
unfolding find_intent
found-append k [] js i h = cc
found-append k (x ∷ is) js i h = ground (arith, eq_iff k x.intent_id, found-append k is js i)

rebase : {how : Method} → (w v u : World) → SameRows w v → Evolution how v u → Evolution how w u
rebase w v u same h k i e = h k i (ap (find_intent k) same ∙ e)

module _ (p : Platform) where
  insert_proposal-Evolution :
      {how : Method}
      → (o : Operation) (now : ℕ) (w : World) → Evolution how w (insert_proposal p o now w).1
  unfolding insert_proposal
  insert_proposal-Evolution o now w =
      after_unchanged
        (raise_if (is_some (find_intent o.intent_id w.database.intents)) integrity_error) _ w w refl
        (raise_if-Silent _ _)
        (λ a v same k i e.
          let rows =
            announced p "effect.proposed" (λ r. Details.nothing) (load o.intent_id) _
            ∙ (load-Silent o.intent_id).same _
            ∙ ap (λ is. is ++ new_intent o now ∷ []) same in
          (i, ap (find_intent k) rows ∙ found-append k w.database.intents _ i e, Evolves-self i))

  propose_at-Evolution :
      {how : Method}
      → (o : Operation) (now : ℕ) (x : Option EffectIntent) (w : World)
      → Evolution how w (propose_at p o now x w).1
  unfolding propose_at
  propose_at-Evolution o now none w = insert_proposal-Evolution o now w
  propose_at-Evolution o now (some x) w =
      after_unchanged (raise_if (not (same_operation x o)) idempotency_conflict) _ w w refl
        (raise_if-Silent _ _) (λ a v same. SameRows-Evolution w v same)

  propose_once-Evolution :
      {how : Method}
      → (o : Operation) (now : ℕ) (w : World) → Evolution how w (propose_once p o now w).1
  unfolding propose_once
  propose_once-Evolution o now w = propose_at-Evolution o now _ w

  choose_id-Silent : (k : Option String) → Silent (choose_id p k)
  unfolding next_uuid
  choose_id-Silent none = silent (λ w. refl)
  choose_id-Silent (some s) = if-Silent (is_empty s) _ _ (silent (λ w. refl)) (silent (λ w. refl))

  read_clock-Silent : Silent (read_clock p)
  unfolding read_clock
  read_clock-Silent = silent (λ w. refl)

  -- What comes before a transaction writes nothing to the tables.
  propose-Evolution :
      {how : Method}
      → (k : Option String) (o : Operation) (w : World) → Evolution how w (propose p k o w).1
  unfolding propose
  propose-Evolution k o w =
      after_unchanged (raise_if (is_malformed o) value_error) _ w w refl (raise_if-Silent _ _)
        (λ a v1 same1.
          after_unchanged (choose_id p k) _ w v1 same1 (choose_id-Silent k) (λ new_id v2 same2.
            let body = propose_once p (record o { intent_id = new_id }) in
            after_unchanged (read_clock p) (λ now. transaction (body now)) w v2 same2
              read_clock-Silent
              (λ now v3 same3.
                rebase w v3 (transaction (body now) v3).1 same3
                  (transaction-Evolution (body now) v3 (propose_once-Evolution _ now v3)))))

  acknowledge-Silent : (k : String) (now : ℕ) → Silent (acknowledge k now)
  unfolding acknowledge
  acknowledge-Silent k now = silent (λ w.
      let outbox = publish k now w.database.outbox in
      (raise_if-Silent (not (elem k (event_ids outbox))) key_error).same
        (record w { database = record w.database { outbox = outbox } }))

  mark_outbox_published-Evolution :
      {how : Method} → (k : String) (w : World) → Evolution how w (mark_outbox_published p k w).1
  unfolding mark_outbox_published
  mark_outbox_published-Evolution k w =
      let body = read_clock p >>= acknowledge k in
      transaction-Evolution body w (
        SameRows-Evolution w (body w).1 (
          (bind-Silent (read_clock p) (acknowledge k) read_clock-Silent (acknowledge-Silent k)).same
            w))

  raise_ambiguity-Silent : (b : Broker) (r : EffectIntent × Bool) → Silent (raise_ambiguity p b r)
  unfolding raise_ambiguity
  raise_ambiguity-Silent b (i, c) =
      bind-Silent (raise_if c ambiguous_commit) _ (raise_if-Silent c ambiguous_commit)
        (λ a. silent (λ w. refl))

  -- A method that is a transaction around a look-up and what follows it.
  method-Evolution :
      {how : Method}
      → {A : Type 0} (k : String) (f : EffectIntent → Kernel A) (w : World)
      → ((i : EffectIntent) → row i.intent_id w ≡ some i → Evolution how w (f i w).1)
      → Evolution how w (transaction (load k >>= f) w).1
  method-Evolution k f w h = transaction-Evolution (load k >>= f) w (load_then k f w h)

  discard-Evolution :
      {how : Method}
      → {A : Type 0} (m : Kernel A) (w : World) → Evolution how w (m w).1
      → Evolution how w (discard m w).1
  discard-Evolution m w h = then-Evolution w (m w) _ h (λ a. silent (λ v. refl))

  -- One call, by any broker, whatever its result: each intent that is stored before is stored
  -- after, with the same operation and creation time, a fence that is not lower, and a state that
  -- is the same or one transition of the state machine later.
  pub call-Evolution :
      (b : Broker) (c : EffectCall) (w : World) → Evolution (method_of c) w (call p b c w).1
  unfolding call prepare acquire_fence approve commit compensate abort prepare_loaded fence_loaded
      approve_loaded commit_loaded compensate_loaded abort_loaded
  call-Evolution b (EffectCall.proposes k o) w =
      discard-Evolution (propose p k o) w (propose-Evolution k o w)
  call-Evolution b (EffectCall.prepares k) w =
      discard-Evolution (prepare p b k) w
        (method-Evolution k _ w (λ i here. prepare_from-Evolution p b w i here i.state refl))
  call-Evolution b (EffectCall.fences k) w =
      discard-Evolution (acquire_fence p b k) w
        (method-Evolution k _ w (λ i here. fence_from-Evolution p b w i here i.state refl))
  call-Evolution b (EffectCall.approves k token grant) w =
      discard-Evolution (approve p b k token grant) w (
        method-Evolution k _ w
          (λ i here. approve_from-Evolution p b w i here token grant i.state refl))
  call-Evolution b (EffectCall.commits k token) w = discard-Evolution (commit p b k token) w (
      then-Evolution w _ _
        (method-Evolution k _ w (λ i here. commit_from-Evolution p b w i here token i.state refl))
        (raise_ambiguity-Silent b))
  call-Evolution b (EffectCall.compensates k token) w =
      discard-Evolution (compensate p b k token) w (
        method-Evolution k _ w
          (λ i here. compensate_from-Evolution p b w i here token i.state refl))
  call-Evolution b (EffectCall.aborts k token) w =
      discard-Evolution (abort p k token) w
        (method-Evolution k _ w (λ i here. abort_from-Evolution p b w i here token i.state refl))
  call-Evolution b (EffectCall.publishes k) w = mark_outbox_published-Evolution k w
