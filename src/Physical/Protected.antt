-- ===== src/Physical/Protected.antt =====
-- `_protected_task_ids` ends, with the least set that has the mandatory tasks and, with each task, what
-- it depends on.
use finite_agent_physics.Prelude.{
  ℕ, zero, suc, ◌+◌, ◌≤◌, ◌<◌, ◌≡◌, refl, sym, ap, ◌∙◌, String, Bool, true, false, ◌||◌, some, List,
  [], ◌∷◌, lookup, contains, elem, count, length, =ˢ_refl, =ˢ_ne, String-cases, Result, ok, err,
  Bool-cases, Option-cases, inl, inr, arith, is_some,
}
use finite_agent_physics.Contracts.Profiles.{Floats}
use finite_agent_physics.Contracts.Tasks.{TaskContract}
use finite_agent_physics.Graph.Graphs.{by_id}
use finite_agent_physics.Graph.Walks.{names}
use finite_agent_physics.Graph.Decided.{DependsOn, left, left_less, left_all, elem-names}
use finite_agent_physics.Graph.Found.{elem_counted}
use finite_agent_physics.Graph.Reached.{counted_elem}
use finite_agent_physics.Graph.Validated.{length-names}
use finite_agent_physics.Physical.Amounts.{PhysicalError}
use finite_agent_physics.Physical.Inputs.{Frontier, meet_all, mandatory, follow, protected_task_ids}
use finite_agent_physics.Physical.Following.{
  IsMandatory, Protects, Following, meet_all-Following, mandatory-Following,
}

module _ {F : Floats} (tasks : List (TaskContract F)) where
  -- How `_protected_task_ids` ends: with the tasks that are protected, or at one that is unknown.
  pub data Protected : Result PhysicalError (List String) → Type 0 where
    closure :
        (ids : List String)
        → ((t : String) → elem t ids ≡ true → Protects tasks t)
        → ((t : String) → Protects tasks t → elem t ids ≡ true)
        → Protected (ok ids)
    unknown :
        (t : String)
        → Protects tasks t
        → contains t (by_id tasks) ≡ false
        → Protected (err (PhysicalError.unknown_dependency t))

  complete :
      (base popped : List String) (f : Frontier)
      → Following tasks base popped popped f
      → f.stack ≡ []
      → ((t : String) → IsMandatory tasks t → elem t base ≡ true)
      → (t : String) → Protects tasks t
      → elem t f.protected ≡ true
  unfolding count
  complete base popped f i emptied roots _ (Protects.root t m) = i.kept t (roots t m)
  complete base popped f i emptied roots _ (Protects.needed d t p on) =
      i.done d t
        (counted_elem t popped (
          omega (
            arith,
            i.split t,
            ap (count t) emptied,
            elem_counted t f.protected (complete base popped f i emptied roots t p),
          )))
        on

  -- One task is taken off the stack, and its dependencies are met.
  next-Following :
      (base popped : List String) (t : String) (ts : List String) (c : TaskContract F)
      (f : Frontier)
      → Following tasks base popped popped f
      → f.stack ≡ t ∷ ts
      → lookup t (by_id tasks) ≡ some c
      → Following tasks base
          (t ∷ popped)
          (t ∷ popped)
          (meet_all c.dependencies (record f { stack = ts }))
  unfolding count
  next-Following base popped t ts c f i taken there =
      let on = λ (d : String) (e : elem d c.dependencies ≡ true).
        Protects.needed d t (i.sound t listed)
          (record { contract = c; found = there; listed = e }) in
      let (j, all) =
        meet_all-Following tasks base (t ∷ popped) popped c.dependencies (record f { stack = ts })
          on
          (record {
            split = λ x. moved x;
            once = i.once;
            kept = i.kept;
            sound = i.sound;
            done = i.done;
          }) in
      record {
        split = j.split;
        once = j.once;
        kept = j.kept;
        sound = j.sound;
        done = λ d x e p. elim (String-cases x t) [
          | inl q ↦ all d (last (elem d f.protected) _ (listed_too d x q p))
          | inr n ↦ all d (first (elem d f.protected) _ (i.done d x (rw (=ˢ_ne x t n) at e) p))
        ];
      }
    where
      listed : elem t f.protected ≡ true
      listed = counted_elem t f.protected (omega (arith, i.split t, at_top))
        where
          at_top : 1 ≤ count t f.stack
          at_top = rw (taken, =ˢ_refl t) (omega arith)

      moved : (x : String) → count x ts + count x (t ∷ popped) ≡ count x f.protected
      moved x = ground (arith, i.split x, ap (count x) taken)

      first : (a b : Bool) → a ≡ true → (a || b) ≡ true
      first a b e = ground (arith, e)

      last : (a b : Bool) → b ≡ true → (a || b) ≡ true
      last a b e = ground (arith, e)

      listed_too :
          (d x : String) → x ≡ t → DependsOn (by_id tasks) d x → elem d c.dependencies ≡ true
      listed_too d x q p =
          ap (elem d) (same (sym there ∙ ap (λ y. lookup y (by_id tasks)) (sym q) ∙ p.found))
          ∙ p.listed
        where
          same : {a b : TaskContract F} → some a ≡ some b → a.dependencies ≡ b.dependencies
          same e = cc

  at_top :
      (base popped : List String) (t : String) (ts : List String) (f : Frontier)
      → Following tasks base popped popped f
      → f.stack ≡ t ∷ ts
      → (elem t popped ≡ false) × (elem t f.protected ≡ true)
  unfolding count
  at_top base popped t ts f i taken =
      let here : 1 ≤ count t f.stack = rw (taken, =ˢ_refl t) (omega arith) in
      (
        elim (Bool-cases (elem t popped)) [
          | inr e ↦ e
          | inl e ↦ absurd (omega (arith, here, i.split t, i.once t, elem_counted t popped e))
        ],
        counted_elem t f.protected (omega (arith, i.split t, here)),
      )

  step-Protected :
      (n : ℕ) (base popped : List String) (t : String) (ts : List String) (f : Frontier)
      → Following tasks base popped popped f
      → f.stack ≡ t ∷ ts
      → ((c : TaskContract F)
          → lookup t (by_id tasks) ≡ some c
          → Protected (follow n (by_id tasks) (meet_all c.dependencies (record f { stack = ts }))))
      → Protected (follow (suc n) (by_id tasks) f)
  unfolding follow
  step-Protected n base popped t ts f i taken rest =
      rw taken (elim (Option-cases (lookup t (by_id tasks))) [
        | inl e ↦ rw e (unknown t (i.sound t (at_top base popped t ts f i taken).1) (rw e refl))
        | inr (c, e) ↦ rw e (rest c e)
      ])

  -- With fuel above the number of tasks that were not taken off the stack, the loop ends.
  follow-Protected :
      (n : ℕ) (base popped : List String) (f : Frontier)
      → left (names (by_id tasks)) popped < n
      → ((t : String) → IsMandatory tasks t → elem t base ≡ true)
      → Following tasks base popped popped f
      → Protected (follow n (by_id tasks) f)
  unfolding follow
  follow-Protected zero base popped f fuel roots i = absurd (omega (arith, fuel))
  follow-Protected (suc n) base popped f fuel roots i = from f.stack refl (λ t ts e.
      step-Protected n base popped t ts f i e (λ c there.
        follow-Protected n base (t ∷ popped) (meet_all c.dependencies (record f { stack = ts }))
          (omega (
            arith,
            fuel,
            left_less t (names (by_id tasks)) popped (elem-names t (by_id tasks) ∙ ap is_some there)
                (at_top base popped t ts f i e).0,
          ))
          roots (next-Following base popped t ts c f i e there)))
    where
      from :
          (stack : List String)
          → f.stack ≡ stack
          → ((t : String) (ts : List String)
              → f.stack ≡ t ∷ ts
              → Protected (follow (suc n) (by_id tasks) f))
          → Protected (follow (suc n) (by_id tasks) f)
      from [] e next = rw e (closure f.protected i.sound (complete base popped f i e roots))
      from (t ∷ ts) e next = next t ts e

  -- The loop of `_protected_task_ids` ends for every list of tasks. It returns the mandatory tasks and
  -- what they depend on, directly or not, and nothing else; or it raises at one of these that the graph
  -- has not.
  pub protected_task_ids-Protected : Protected (protected_task_ids tasks)
  unfolding protected_task_ids count
  protected_task_ids-Protected =
      let f : Frontier = record { protected = []; stack = [] } in
      let (i, all) =
        mandatory-Following tasks tasks f (λ t h. h)
          (record {
            split = λ x. omega arith;
            once = λ x. omega arith;
            kept = λ x e. cc;
            sound = λ x e. cc;
            done = λ d t e. cc;
          }) in
      let start = mandatory tasks f in
      follow-Protected (suc (length tasks + length (by_id tasks))) start.protected [] start
        (omega (arith, left_all (names (by_id tasks)), length-names (by_id tasks))) (λ t m. all t m)
        (record { split = i.split; once = i.once; kept = λ x e. e; sound = i.sound; done = i.done })
