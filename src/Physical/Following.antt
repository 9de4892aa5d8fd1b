-- ===== src/Physical/Following.antt =====
-- The invariant of the loop of `_protected_task_ids`.
use finite_agent_physics.Prelude.{
  ◌+◌, ◌≤◌, ◌≡◌, refl, sym, ap, ◌∙◌, subst, String, Bool, true, not, ◌||◌, ◌&&◌, List, [], ◌∷◌,
  elem, any_of, count, ◌=ˢ◌, =ˢ_refl, =ˢ_ne, String-cases, Bool-cases, inl, inr, arith,
}
use finite_agent_physics.Contracts.Profiles.{Floats}
use finite_agent_physics.Contracts.Tasks.{TaskContract}
use finite_agent_physics.Graph.Graphs.{by_id}
use finite_agent_physics.Graph.Decided.{DependsOn}
use finite_agent_physics.Graph.Total.{uncounted}
use finite_agent_physics.Physical.Inputs.{mandatory, Frontier, meet, meet_all}

module _ {F : Floats} (tasks : List (TaskContract F)) where
  -- A mandatory task has the name.
  abbrev pub IsMandatory : String → Type 0
  IsMandatory t = any_of (λ c. not c.optional && (t =ˢ c.task_id)) tasks ≡ true

  -- The mandatory tasks, and what they depend on.
  pub data Protects : String → Type 0 where
    root : (t : String) → IsMandatory t → Protects t
    needed : (d t : String) → Protects t → DependsOn (by_id tasks) d t → Protects d

  -- In the middle of the loop: the tasks that were taken off the stack, those of them whose
  -- dependencies were met, and the tasks that were there at the start.
  pub record Following (base popped finished : List String) (f : Frontier) : Type 0 where
    pub split : (x : String) → count x f.stack + count x popped ≡ count x f.protected
    pub once : (x : String) → count x f.protected ≤ 1
    pub kept : (x : String) → elem x base ≡ true → elem x f.protected ≡ true
    pub sound : (x : String) → elem x f.protected ≡ true → Protects x
    pub done :
        (d t : String)
        → elem t finished ≡ true
        → DependsOn (by_id tasks) d t
        → elem d f.protected ≡ true

  module _ (base popped finished : List String) where
    pub meet-Following :
        (d : String) (f : Frontier)
        → Protects d
        → Following base popped finished f
        → Following base popped finished (meet f d)
    unfolding count
    meet-Following d f p i = elim (Bool-cases (elem d f.protected)) [
      | inl e ↦ rw e i
      | inr e ↦ rw e (record {
        split = λ x. ground (arith, i.split x);
        once = λ x. elim (String-cases x d) [
          | inl q ↦ ground (arith, uncounted x f.protected (ap (λ y. elem y f.protected) q ∙ e))
          | inr n ↦ rw (=ˢ_ne x d n) (i.once x)
        ];
        kept = λ x h. ground (arith, i.kept x h);
        sound = λ x h. elim (String-cases x d) [
          | inl q ↦ subst Protects (sym q) p
          | inr n ↦ i.sound x (rw (=ˢ_ne x d n) at h)
        ];
        done = λ y t h on. ground (arith, i.done y t h on);
      })
    ]

    pub met :
        (d x : String) (f : Frontier)
        → (elem x f.protected || x =ˢ d) ≡ true
        → elem x (meet f d).protected ≡ true
    met d x f h = elim (Bool-cases (elem d f.protected)) [
      | inr e ↦ rw e (ground (arith, h))
      | inl e ↦ elim (String-cases x d) [
        | inl q ↦ rw (e, q) e
        | inr n ↦ rw e (ground (arith, h, =ˢ_ne x d n))
      ]
    ]

    -- All the names are met, and what was met before is kept.
    pub meet_all-Following :
        (ds : List String) (f : Frontier)
        → ((d : String) → elem d ds ≡ true → Protects d)
        → Following base popped finished f
        → Following base popped finished (meet_all ds f)
          × ((x : String)
              → (elem x f.protected || elem x ds) ≡ true
              → elem x (meet_all ds f).protected ≡ true)
    unfolding meet_all
    meet_all-Following [] f p i = (i, λ x h. ground (arith, h))
    meet_all-Following (d ∷ ds) f p i =
        let (j, all) =
          meet_all-Following ds (meet f d) (λ x e. p x (ground (arith, e)))
            (meet-Following d f (p d (rw (=ˢ_refl d) refl)) i) in
        (j, λ x h. all x (first x h (met d x f)))
      where
        first :
            (x : String)
            → (elem x f.protected || (x =ˢ d || elem x ds)) ≡ true
            → ((elem x f.protected || x =ˢ d) ≡ true → elem x (meet f d).protected ≡ true)
            → (elem x (meet f d).protected || elem x ds) ≡ true
        first x h k = ground (arith, h, k)

  pub mandatory-Following :
      (ts : List (TaskContract F)) (f : Frontier)
      → ((t : String) → any_of (λ c. not c.optional && (t =ˢ c.task_id)) ts ≡ true → IsMandatory t)
      → Following [] [] [] f
      → Following [] [] [] (mandatory ts f)
        × ((x : String)
            → (elem x f.protected || any_of (λ c. not c.optional && (x =ˢ c.task_id)) ts) ≡ true
            → elem x (mandatory ts f).protected ≡ true)
  unfolding mandatory
  mandatory-Following [] f some_of i = (i, λ x h. ground (arith, h))
  mandatory-Following (c ∷ ts) f some_of i = elim (Bool-cases c.optional) [
    | inl e ↦
        let (j, all) = mandatory-Following ts f (λ t h. some_of t (rw e h)) i in
        rw e (j, λ x h. all x h)
    | inr e ↦
        let (j, all) =
          mandatory-Following ts (meet f c.task_id) (λ t h. some_of t (rw e (or_right _ _ h)))
            (meet-Following [] [] [] c.task_id f
              (Protects.root c.task_id (some_of c.task_id (rw (e, =ˢ_refl c.task_id) refl))) i) in
        rw e (j, λ x h. all x (first x h (met [] [] [] c.task_id x f)))
  ]
    where
      or_right : (a b : Bool) → b ≡ true → (a || b) ≡ true
      or_right a b e = ground (arith, e)

      first :
          (x : String)
          → (elem x f.protected
              || (x =ˢ c.task_id || any_of (λ c. not c.optional && (x =ˢ c.task_id)) ts))
            ≡ true
          → ((elem x f.protected || x =ˢ c.task_id) ≡ true
              → elem x (meet f c.task_id).protected ≡ true)
          → (elem x (meet f c.task_id).protected
              || any_of (λ c. not c.optional && (x =ˢ c.task_id)) ts)
            ≡ true
      first x h k = ground (arith, h, k)
