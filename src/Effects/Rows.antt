-- ===== src/Effects/Rows.antt =====
-- What the shared row operations do to the intents: most steps leave every row alone.
use finite_agent_physics.Prelude.{
  suc, subst, =ˢ_ne, ◌≡◌, refl, sym, ap, ◌∙◌, String, Bool, true, false, Option, none, some, Result,
  ok, err, eq_iff, String-cases, Option-cases, inl, inr, ◌>>=◌, ◌>>◌, continue, raise_if, pure,
  if◌then◌else◌,
}
use finite_agent_physics.Effects.Types.{
  EffectError, EffectIntent, Details, Platform, OutboxPayload, integrity_error,
}
use finite_agent_physics.Effects.Adapter.{Target}
use finite_agent_physics.Effects.Database.{
  Database, World, Kernel, change, roll_back, transaction, with_adapter, put_adapter, find_intent,
  update_intents, found, load, enqueue, update_row, announce, read_clock, next_uuid, append_outbox,
}
use finite_agent_physics.Effects.Evolution.{
  Method, Evolves, Evolution, Evolves-self, row, row_id, row-update,
}

abbrev pub SameRows : World → World → Type 0
SameRows w w' = w'.database.intents ≡ w.database.intents

-- A step that changes no row, whatever its result.
pub record Silent {A : Type 0} (m : Kernel A) : Type 0 where
  pub same : (w : World) → SameRows w (m w).1

pub silent : {A : Type 0} {m : Kernel A} → ((w : World) → SameRows w (m w).1) → Silent m
silent h = record { same = h }

pub raise_if-Silent : (c : Bool) (e : EffectError) → Silent (raise_if c e)
raise_if-Silent true e = silent (λ w. refl)
raise_if-Silent false e = silent (λ w. refl)

pub if-Silent :
    {A : Type 0} (c : Bool) (m n : Kernel A) → Silent m → Silent n → Silent (if c then m else n)
if-Silent true m n hm hn = hm
if-Silent false m n hm hn = hn

then_same :
    {A B : Type 0} (w : World) (r : Result EffectError A × World) (f : A → Kernel B)
    → SameRows w r.1
    → ((a : A) → Silent (f a))
    → SameRows w (continue r f).1
then_same w (ok a, v) f h fs = (fs a).same v ∙ h
then_same w (err e, v) f h fs = h

pub bind-Silent :
    {A B : Type 0} (m : Kernel A) (f : A → Kernel B)
    → Silent m
    → ((a : A) → Silent (f a))
    → Silent (m >>= f)
bind-Silent m f h fs = silent (λ w. then_same w (m w) f (h.same w) fs)

put_adapter_same :
    {A : Type 0} (w : World) (m : Target A) → SameRows w (put_adapter w (m w.adapter)).1
put_adapter_same w m = refl

pub with_adapter-Silent : {A : Type 0} (m : Target A) → Silent (with_adapter m)
unfolding with_adapter
with_adapter-Silent m = silent (λ w. put_adapter_same w m)

found-Silent : (o : Option EffectIntent) → Silent (found o)
unfolding found
found-Silent none = silent (λ w. refl)
found-Silent (some i) = silent (λ w. refl)

pub load-Silent : (k : String) → Silent (load k)
unfolding load
load-Silent k = silent (λ w. (found-Silent _).same w)

-- A guarded change of the other tables.
pub raise_then :
    {A : Type 0} (c : Bool) (e : EffectError) (g : Database → Database) (a : A) (w : World)
    → (g w.database).intents ≡ w.database.intents
    → SameRows w (continue (raise_if c e w) (λ x. change g >> pure a)).1
raise_then true e g a w h = refl
raise_then false e g a w h = h

module _ (p : Platform) where
  pub enqueue-Silent : (i : EffectIntent) (t : String) (d : Details) → Silent (enqueue p i t d)
  unfolding enqueue next_uuid read_clock
  enqueue-Silent i t d = silent (λ w.
      let payload : OutboxPayload = record {
        intent_id = i.intent_id;
        run_id = i.run_id;
        state = i.state;
        fence_version = i.fence_version;
        details = d;
      } in
      raise_then _ integrity_error
        (append_outbox payload t (p.uuid w.uuids) (p.clock_ms w.clock_reads)) tt
        (record w { clock_reads = suc w.clock_reads; uuids = suc w.uuids }) refl)

  pub announced :
      (t : String) (d : EffectIntent → Details) (m : Kernel EffectIntent) (w : World)
      → (announce p t d m w).1.database.intents ≡ (m w).1.database.intents
  unfolding announce
  announced t d m w = then_same (m w).1 (m w) _ refl (λ i.
      bind-Silent (enqueue p i t (d i)) _ (enqueue-Silent i t (d i)) (λ a. silent (λ v. refl)))

  pub updated :
      (k : String) (f : EffectIntent → EffectIntent) (w : World)
      → (update_row p k f w).1.database.intents
        ≡ update_intents k
            (λ i. record (f i) { updated_at_ms = p.clock_ms w.clock_reads })
            w.database.intents
  unfolding update_row read_clock
  updated k f w = (load-Silent k).same _

-- From here on: what the steps do to each intent.
pub SameRows-Evolution : {how : Method} → (w w' : World) → SameRows w w' → Evolution how w w'
SameRows-Evolution w w' h k i e = (i, ap (find_intent k) h ∙ e, Evolves-self i)

pub transaction-Evolution :
    {how : Method}
    → {A : Type 0} (m : Kernel A) (w : World) → Evolution how w (m w).1
    → Evolution how w (transaction m w).1
unfolding transaction
transaction-Evolution m w h = after_roll_back w (m w) h
  where
    after_roll_back :
        {how : Method}
        → {A : Type 0} (w : World) (r : Result EffectError A × World) → Evolution how w r.1
        → Evolution how w (roll_back w.database r).1
    after_roll_back w (ok a, v) h = h
    after_roll_back w (err e, v) h = SameRows-Evolution w (record v { database = w.database }) refl

pub then-Evolution :
    {how : Method}
    → {A B : Type 0} (w : World) (r : Result EffectError A × World) (f : A → Kernel B)
    → Evolution how w r.1
    → ((a : A) → Silent (f a))
    → Evolution how w (continue r f).1
then-Evolution w (ok a, v) f h fs k i e =
    let (j, found_j, change) = h k i e in (j, ap (find_intent k) ((fs a).same v) ∙ found_j, change)
then-Evolution w (err e, v) f h fs k i e' = h k i e'

pub after_unchanged :
    {how : Method}
    → {A B : Type 0} (m : Kernel A) (f : A → Kernel B) (w v : World) → SameRows w v
    → Silent m
    → ((a : A) (u : World) → SameRows w u → Evolution how w (f a u).1)
    → Evolution how w ((m >>= f) v).1
after_unchanged m f w v same h fs = after_step w (m v) f (h.same v ∙ same) fs
  where
    after_step :
        {how : Method}
        → {A B : Type 0} (w : World) (r : Result EffectError A × World) (f : A → Kernel B)
        → SameRows w r.1
        → ((a : A) (u : World) → SameRows w u → Evolution how w (f a u).1)
        → Evolution how w (continue r f).1
    after_step w (ok a, u) f h fs = fs a u h
    after_step w (err e, u) f h fs = SameRows-Evolution w u h

-- A method that begins with a look-up: its rest starts from a row of the table.
pub load_then :
    {how : Method}
    → {A : Type 0} (k : String) (f : EffectIntent → Kernel A) (w : World)
    → ((i : EffectIntent) → row i.intent_id w ≡ some i → Evolution how w (f i w).1)
    → Evolution how w ((load k >>= f) w).1
unfolding load found
load_then k f w h = elim (Option-cases (find_intent k w.database.intents)) [
  | inl e ↦ rw e (SameRows-Evolution w w refl)
  | inr (i, e) ↦ rw e (h i (ap (λ l. row l w) (row_id k i w.database.intents e) ∙ e))
]

some_inj : {A : Type 0} {x y : A} → some x ≡ some y → x ≡ y
some_inj h = cc

-- A row that evolves, and its announcement.
pub row-Evolution :
    {how : Method}
    → (p : Platform) (t : String) (d : EffectIntent → Details) (f : EffectIntent → EffectIntent)
      (i : EffectIntent) (w v : World)
    → SameRows w v
    → row i.intent_id w ≡ some i
    → ((x : EffectIntent) → (f x).operation ≡ x.operation)
    → Evolves how i (f i)
    → Evolution how w (announce p t d (update_row p i.intent_id f) v).1
row-Evolution {how} p t d f i w v same here keeps ev k x e =
    let stamp : EffectIntent → EffectIntent =
      λ y. record (f y) { updated_at_ms = p.clock_ms v.clock_reads } in
    let intents =
      announced p t d (update_row p i.intent_id f) v
      ∙ updated p i.intent_id f v
      ∙ ap (update_intents i.intent_id stamp) same in
    let after =
      ap (find_intent k) intents ∙ row-update k i.intent_id stamp w.database.intents x keeps e in
    elim (String-cases k i.intent_id) [
      | inl q ↦
          let stamped : Evolves how i (stamp i) = record {
            operation = ev.operation;
            created = ev.created;
            fence = ev.fence;
            step = ev.step;
          } in
          let same_row : i ≡ x = some_inj (sym here ∙ ap (λ l. row l w) (sym q) ∙ e) in
          (
            stamp x,
            after ∙ ap (λ c. some (if c then stamp x else x)) ((eq_iff k i.intent_id).1 q),
            subst (λ y. Evolves how y (stamp y)) same_row stamped,
          )
      | inr n ↦ (
        x,
        after ∙ ap (λ c. some (if c then stamp x else x)) (=ˢ_ne k i.intent_id n),
        Evolves-self x,
      )
    ]
