-- ===== src/Effects/Rollback.antt =====
-- A call that raises leaves the database as it was, `AmbiguousCommit` excepted.
use finite_agent_physics.Prelude.{
  ◌≡◌, ◌≢◌, refl, sym, ap, ◌∙◌, String, Bool, true, false, Option, none, some, Result, ok, err,
  is_empty, ◌>>=◌, continue, raise_if, if◌then◌else◌,
}
use finite_agent_physics.Effects.Types.{
  EffectError, EffectIntent, Operation, Platform, Broker, value_error,
}
use finite_agent_physics.Effects.Database.{
  Database, World, Kernel, transaction, roll_back, read_clock, next_uuid,
}
use finite_agent_physics.Effects.Proposals.{
  propose, propose_once, is_malformed, choose_id, prepare, acquire_fence, abort,
}
use finite_agent_physics.Effects.Approval.{approve}
use finite_agent_physics.Effects.Commit.{commit, compensate, raise_ambiguity}
use finite_agent_physics.Effects.Outbox.{mark_outbox_published}
use finite_agent_physics.Effects.Calls.{EffectCall, call, discard}

-- A raise of anything else than the ambiguity takes back every write.
record Atomic {A : Type 0} (m : Kernel A) : Type 0 where
  undone :
      (w : World) (e : EffectError)
      → (m w).0 ≡ err e
      → e ≢ EffectError.ambiguous_commit
      → (m w).1.database ≡ w.database

roll_back_err :
    {A : Type 0} (d : Database) (r : Result EffectError A × World) (e : EffectError)
    → (roll_back d r).0 ≡ err e
    → (roll_back d r).1.database ≡ d
roll_back_err d (ok a, w) e h = cc
roll_back_err d (err e', w) e h = refl

transaction-Atomic : {A : Type 0} (m : Kernel A) → Atomic (transaction m)
unfolding transaction
transaction-Atomic m = record { undone = λ w e h other. roll_back_err w.database (m w) e h }

after_undone :
    {A B : Type 0} (d : Database) (r : Result EffectError A × World) (f : A → Kernel B)
    (e : EffectError)
    → r.1.database ≡ d
    → ((a : A) → Atomic (f a))
    → (continue r f).0 ≡ err e
    → e ≢ EffectError.ambiguous_commit
    → (continue r f).1.database ≡ d
after_undone d (ok a, v) f e same fs h other = (fs a).undone v e h other ∙ same
after_undone d (err e', v) f e same fs h other = same

-- What comes before the transaction does not write.
unwritten_then :
    {A B : Type 0} (m : Kernel A) (f : A → Kernel B)
    → ((w : World) → (m w).1.database ≡ w.database)
    → ((a : A) → Atomic (f a))
    → Atomic (m >>= f)
unwritten_then m f same fs = record {
  undone = λ w e h other. after_undone w.database (m w) f e (same w) fs h other;
}

raise_if_unwritten :
    (c : Bool) (e : EffectError) (w : World) → (raise_if c e w).1.database ≡ w.database
raise_if_unwritten true e w = refl
raise_if_unwritten false e w = refl

if_unwritten :
    {A : Type 0} (c : Bool) (m n : Kernel A) (w : World)
    → (m w).1.database ≡ w.database
    → (n w).1.database ≡ w.database
    → ((if c then m else n) w).1.database ≡ w.database
if_unwritten true m n w hm hn = hm
if_unwritten false m n w hm hn = hn

discard-Atomic : {A : Type 0} (m : Kernel A) → Atomic m → Atomic (discard m)
discard-Atomic m h = record { undone = λ w e. after w (m w) e (h.undone w e) }
  where
    after :
        {A : Type 0} (w : World) (r : Result EffectError A × World) (e : EffectError)
        → (r.0 ≡ err e → e ≢ EffectError.ambiguous_commit → r.1.database ≡ w.database)
        → (continue r (λ a v. (ok tt, v))).0 ≡ err e
        → e ≢ EffectError.ambiguous_commit
        → (continue r (λ a v. (ok tt, v))).1.database ≡ w.database
    after w (ok a, v) e undone h other = cc
    after w (err e', v) e undone h other = undone (cc) other

module _ (p : Platform) where
  choose_id_unwritten : (k : Option String) (w : World) → (choose_id p k w).1.database ≡ w.database
  unfolding next_uuid
  choose_id_unwritten none w = refl
  choose_id_unwritten (some s) w = if_unwritten (is_empty s) _ _ w refl refl

  read_clock_unwritten : (w : World) → (read_clock p w).1.database ≡ w.database
  unfolding read_clock
  read_clock_unwritten w = refl

  propose-Atomic : (k : Option String) (o : Operation) → Atomic (propose p k o)
  unfolding propose
  propose-Atomic k o =
      unwritten_then (raise_if (is_malformed o) value_error) _ (raise_if_unwritten _ _) (λ a.
        unwritten_then (choose_id p k) _ (choose_id_unwritten k) (λ new_id.
          unwritten_then (read_clock p)
            (λ now. transaction (propose_once p (record o { intent_id = new_id }) now))
            read_clock_unwritten (λ now. transaction-Atomic _)))

  commit-Atomic :
      (b : Broker) (m : Kernel (EffectIntent × Bool))
      → Atomic (transaction m >>= raise_ambiguity p b)
  unfolding raise_ambiguity transaction
  commit-Atomic b m = record { undone = λ w e. after w (m w) e }
    where
      after :
          (w : World) (r : Result EffectError (EffectIntent × Bool) × World) (e : EffectError)
          → (continue (roll_back w.database r) (raise_ambiguity p b)).0 ≡ err e
          → e ≢ EffectError.ambiguous_commit
          → (continue (roll_back w.database r) (raise_ambiguity p b)).1.database ≡ w.database
      after w (ok (i, true), v) e h other = absurd (other (cc))
      after w (ok (i, false), v) e h other = cc
      after w (err e', v) e h other = refl

  call-Atomic : (b : Broker) (c : EffectCall) → Atomic (call p b c)
  unfolding call prepare acquire_fence approve commit compensate abort mark_outbox_published
  call-Atomic b (EffectCall.proposes k o) = discard-Atomic _ (propose-Atomic k o)
  call-Atomic b (EffectCall.prepares k) = discard-Atomic (prepare p b k) (transaction-Atomic _)
  call-Atomic b (EffectCall.fences k) = discard-Atomic (acquire_fence p b k) (transaction-Atomic _)
  call-Atomic b (EffectCall.approves k t g) =
      discard-Atomic (approve p b k t g) (transaction-Atomic _)
  call-Atomic b (EffectCall.commits k t) = discard-Atomic (commit p b k t) (commit-Atomic b _)
  call-Atomic b (EffectCall.compensates k t) =
      discard-Atomic (compensate p b k t) (transaction-Atomic _)
  call-Atomic b (EffectCall.aborts k t) = discard-Atomic (abort p k t) (transaction-Atomic _)
  call-Atomic b (EffectCall.publishes k) = transaction-Atomic _

  -- A call that raises any error but `AmbiguousCommit` leaves the intents, the grants and the outbox
  -- exactly as they were.
  pub raised_call_undone :
      (b : Broker) (c : EffectCall) (w w' : World) (e : EffectError)
      → call p b c w ≡ (err e, w')
      → e ≢ EffectError.ambiguous_commit
      → w'.database ≡ w.database
  raised_call_undone b c w w' e h other =
      sym (ap (λ r. r.1.database) h) ∙ (call-Atomic b c).undone w e (ap (λ r. r.0) h) other
