-- ===== src/Effects/Targets.antt =====
-- Which steps of the kernel leave the target alone.
use finite_agent_physics.Prelude.{
  ℕ, suc, ◌≡◌, refl, ap, ◌∙◌, String, Bool, true, false, not, ◌&&◌, Option, none, some, List,
  Result, ok, err, is_empty, Bool-cases, inl, inr, ◌>>=◌, ◌>>◌, continue, raise_if, if◌then◌else◌,
  leb, ltb, ◌=ˢ◌,
}
use finite_agent_physics.Effects.Types.{
  EffectError, EffectState, EffectIntent, ApprovalGrant, Details, Platform, Broker, OutboxPayload,
  is_irreversible, invalid_approval, integrity_error,
}
use finite_agent_physics.Effects.Adapter.{
  SimulatedEffectAdapter, SimulatedApplication, is_foreign, was_applied, was_applied_at,
}
use finite_agent_physics.Effects.Database.{
  Database, World, Kernel, change, load, found, set_state, announce, with_adapter, enqueue,
  update_row, read_clock, next_uuid, append_outbox, coalesce,
}
use finite_agent_physics.Effects.Approval.{
  stored_grant, verify_grant, verify_under, grant_named, grant_row, in_scope,
}
use finite_agent_physics.Effects.Commit.{applied_from, already_applied, check_grant, mark_committed}

abbrev pub Kept : World → World → Type 0
Kept w v = v.adapter ≡ w.adapter

pub record Quiet {A : Type 0} (m : Kernel A) : Type 0 where
  pub kept : (w : World) → Kept w (m w).1

pub quiet : {A : Type 0} {m : Kernel A} → ((w : World) → Kept w (m w).1) → Quiet m
quiet h = record { kept = h }

pub then-Kept :
    {A B : Type 0} (w : World) (r : Result EffectError A × World) (f : A → Kernel B)
    → Kept w r.1
    → ((a : A) → Quiet (f a))
    → Kept w (continue r f).1
then-Kept w (ok a, v) f h fs = (fs a).kept v ∙ h
then-Kept w (err e, v) f h fs = h

bind-Quiet :
    {A B : Type 0} (m : Kernel A) (f : A → Kernel B)
    → Quiet m
    → ((a : A) → Quiet (f a))
    → Quiet (m >>= f)
bind-Quiet m f h fs = quiet (λ w. then-Kept w (m w) f (h.kept w) fs)

raise_if-Quiet : (c : Bool) (e : EffectError) → Quiet (raise_if c e)
raise_if-Quiet true e = quiet (λ w. refl)
raise_if-Quiet false e = quiet (λ w. refl)

guard-Quiet :
    {A : Type 0} {m : Kernel A} (c : Bool) (e : EffectError) → Quiet m → Quiet (raise_if c e >> m)
guard-Quiet {A} {m} c e h = bind-Quiet (raise_if c e) (λ a. m) (raise_if-Quiet c e) (λ a. h)

if-Quiet : {A : Type 0} (c : Bool) (m n : Kernel A) → Quiet m → Quiet n → Quiet (if c then m else n)
if-Quiet true m n hm hn = hm
if-Quiet false m n hm hn = hn

found-Quiet : (o : Option EffectIntent) → Quiet (found o)
unfolding found
found-Quiet none = quiet (λ w. refl)
found-Quiet (some i) = quiet (λ w. refl)

module _ (p : Platform) where
  read_clock-Quiet : Quiet (read_clock p)
  unfolding read_clock
  read_clock-Quiet = quiet (λ w. refl)

  guarded_change :
      (c : Bool) (e : EffectError) (g : Database → Database) (w : World)
      → Kept w (continue (raise_if c e w) (λ x. change g)).1
  guarded_change true e g w = refl
  guarded_change false e g w = refl

  enqueue-Quiet : (i : EffectIntent) (t : String) (d : Details) → Quiet (enqueue p i t d)
  unfolding enqueue next_uuid read_clock
  enqueue-Quiet i t d = quiet (λ w.
      let payload : OutboxPayload = record {
        intent_id = i.intent_id;
        run_id = i.run_id;
        state = i.state;
        fence_version = i.fence_version;
        details = d;
      } in
      guarded_change _ integrity_error
        (append_outbox payload t (p.uuid w.uuids) (p.clock_ms w.clock_reads))
        (record w { clock_reads = suc w.clock_reads; uuids = suc w.uuids }))

  pub announce-Quiet :
      (t : String) (d : EffectIntent → Details) (m : Kernel EffectIntent)
      → Quiet m
      → Quiet (announce p t d m)
  unfolding announce
  announce-Quiet t d m h =
      bind-Quiet m _ h
        (λ i. bind-Quiet (enqueue p i t (d i)) _ (enqueue-Quiet i t (d i)) (λ a. quiet (λ w. refl)))

  update_row-Quiet : (k : String) (f : EffectIntent → EffectIntent) → Quiet (update_row p k f)
  unfolding update_row read_clock load
  update_row-Quiet k f = quiet (λ w. (found-Quiet _).kept _)

  pub set_state-Quiet :
      (k : String) (s : EffectState) (g e : Option String) → Quiet (set_state p k s g e)
  unfolding set_state
  set_state-Quiet k s g e = update_row-Quiet k (λ i. record i {
    state = s;
    approval_grant_id = coalesce g i.approval_grant_id;
    last_error = e;
  })

  verify_under-Quiet :
      (i : EffectIntent) (g : ApprovalGrant) (t : Bool) (o : Option (List ℕ))
      → Quiet (verify_under p i g t o)
  unfolding verify_under
  verify_under-Quiet i g t none = quiet (λ w. refl)
  verify_under-Quiet i g t (some secret) =
      guard-Quiet (not (p.sign secret g.claims =ˢ g.signature)) invalid_approval (
        guard-Quiet (is_empty g.principal) invalid_approval (
          guard-Quiet (not (in_scope p i g)) invalid_approval (
            bind-Quiet (read_clock p) _ read_clock-Quiet (λ now.
              guard-Quiet (leb g.expires_at_ms g.not_before_ms) invalid_approval (
                raise_if-Quiet (t && not (leb g.not_before_ms now && ltb now g.expires_at_ms))
                  invalid_approval)))))

  grant_row-Quiet : (o : Option ApprovalGrant) → Quiet (grant_row p o)
  unfolding grant_row
  grant_row-Quiet none = quiet (λ w. refl)
  grant_row-Quiet (some g) = quiet (λ w. refl)

  grant_named-Quiet : (o : Option String) → Quiet (grant_named p o)
  unfolding grant_named
  grant_named-Quiet none = quiet (λ w. refl)
  grant_named-Quiet (some k) = quiet (λ w. (grant_row-Quiet _).kept w)

  module _ (b : Broker) where
    pub check_grant-Quiet : (i : EffectIntent) (already : Bool) → Quiet (check_grant p b i already)
    unfolding check_grant stored_grant verify_grant
    check_grant-Quiet i already =
        if-Quiet (is_irreversible i.effect_class) _ _
          (bind-Quiet (stored_grant p i) (λ g. verify_grant p b i g (not already))
            (grant_named-Quiet i.approval_grant_id) (λ g. verify_under-Quiet i g (not already) _))
          (quiet (λ w. refl))

    pub mark_committed-Quiet : (i : EffectIntent) (r t : Bool) → Quiet (mark_committed p b i r t)
    unfolding mark_committed
    mark_committed-Quiet i r t = announce-Quiet _ _ _ (set_state-Quiet _ _ _ _)

  -- To ask the target for its status changes nothing.
  was_applied_at_same :
      (i : EffectIntent) (o : Option SimulatedApplication) (t : SimulatedEffectAdapter)
      → (was_applied_at p i o t).1 ≡ t
  unfolding was_applied_at
  was_applied_at_same i none t = refl
  was_applied_at_same i (some a) t = elim (Bool-cases (is_foreign p a i)) [
    | inl h ↦ rw h refl
    | inr h ↦ rw h refl
  ]

  applied_from_same :
      (i : EffectIntent) (s : EffectState) (w : World) → (applied_from p i s w).1 ≡ w
  unfolding applied_from with_adapter was_applied
  applied_from_same i EffectState.ambiguous w =
      ap (λ t. record w { adapter = t }) (was_applied_at_same i _ w.adapter)
  applied_from_same i EffectState.proposed w = refl
  applied_from_same i EffectState.prepared w = refl
  applied_from_same i EffectState.approved w = refl
  applied_from_same i EffectState.committed w = refl
  applied_from_same i EffectState.aborted w = refl
  applied_from_same i EffectState.compensated w = refl

  pub already_applied_same : (i : EffectIntent) (w : World) → (already_applied p i w).1 ≡ w
  unfolding already_applied
  already_applied_same i w = applied_from_same i i.state w
