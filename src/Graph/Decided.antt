-- ===== src/Graph/Decided.antt =====
-- The depth-first walk decides whether the dependencies are well founded.
use mathlib.Core.WellFounded.{Acc}
use finite_agent_physics.Prelude.{
  ℕ, zero, suc, ◌≤◌, ◌<◌, ◌≡◌, refl, sym, ap, subst, ◌∙◌, String, Bool, true, false, ◌||◌, some,
  List, [], ◌∷◌, Dict, lookup, contains, elem, ◌=ˢ◌, =ˢ_refl, eq_iff, Result, ok, err, length,
  arith, continue, Bool-cases, Option-cases, inl, inr, if◌then◌else◌, String-cases, =ˢ_ne,
}
use finite_agent_physics.Contracts.Profiles.{Floats}
use finite_agent_physics.Contracts.Tasks.{TaskContract}
use finite_agent_physics.Graph.Walks.{
  Marks, GraphFault, removed, Walk, for_each, leave, descend, visit_marked, visit, names,
}

-- How many of the names are not being visited.
pub left : List String → List String → ℕ
left [] v = zero
left (k ∷ ks) v = let rest = left ks v in if elem k v then rest else suc rest

left_falls : (t : String) (ks v : List String) → left ks (t ∷ v) ≤ left ks v
unfolding left
left_falls t [] v = omega arith
left_falls t (k ∷ ks) v = ground (arith, left_falls t ks v)

pub left_less :
    (t : String) (ks v : List String)
    → elem t ks ≡ true
    → elem t v ≡ false
    → left ks (t ∷ v) < left ks v
unfolding left
left_less t [] v e f = cc
left_less t (k ∷ ks) v e f = elim (String-cases t k) [
  | inl p ↦
      let here : (k =ˢ t) ≡ true = (eq_iff k t).1 (sym p) in
      let out : elem k v ≡ false = ap (λ x. elem x v) (sym p) ∙ f in
      ground (arith, here, out, left_falls t ks v)
  | inr n ↦
      let there : elem t ks ≡ true = rw (=ˢ_ne t k n) at e in
      let off : (k =ˢ t) ≡ false = =ˢ_ne k t (λ q. n (sym q)) in
      ground (arith, off, left_less t ks v there f)
]

pub left_all : (ks : List String) → left ks [] ≡ length ks
unfolding left
left_all [] = refl
left_all (k ∷ ks) = ap suc (left_all ks)

or_cases : (b c : Bool) → (b || c) ≡ true → (c ≡ false → b ≡ true)
or_cases b c e f = ground (arith, e, f)

module _ {F : Floats} where
  pub elem-names : (k : String) (d : Dict (TaskContract F)) → elem k (names d) ≡ contains k d
  unfolding lookup
  elem-names k [] = refl
  elem-names k ((j, v) ∷ d) = elim (Bool-cases (k =ˢ j)) [
    | inl e ↦ rw e refl
    | inr e ↦ rw e (elem-names k d)
  ]

module _ {F : Floats} (tasks : Dict (TaskContract F)) where
  -- The task depends on `d`.
  pub record DependsOn (d t : String) : Type 0 where
    pub contract : TaskContract F
    pub found : lookup t tasks ≡ some contract
    pub listed : elem d contract.dependencies ≡ true

  -- The task depends on `x`, maybe through others.
  pub data Reaches (x : String) : String → Type 0 where
    direct : (t : String) → DependsOn t x → Reaches x t
    further : (d t : String) → Reaches x d → DependsOn t d → Reaches x t

  -- Every dependency of a task is a task.
  abbrev pub Closed : Type 0
  Closed = (d t : String) → DependsOn d t → contains d tasks ≡ true

  abbrev pub Grounded : List String → Type 0
  Grounded v = (x : String) → elem x v ≡ true → Acc DependsOn x

  abbrev pub Chained : List String → String → Type 0
  Chained v t = (x : String) → elem x v ≡ true → Reaches x t

  pub data Walked (m : Marks) (ts : List String)
      : Result GraphFault (Unit {0}) × Marks → Type 0 where
    through :
        (m' : Marks)
        → m'.visiting ≡ m.visiting
        → Grounded m'.visited
        → ((x : String) → elem x ts ≡ true → elem x m'.visited ≡ true)
        → ((x : String) → elem x m.visited ≡ true → elem x m'.visited ≡ true)
        → Walked m ts (ok tt, m')
    circular : (t : String) (m' : Marks) → Reaches t t → Walked m ts (err (GraphFault.cycle t), m')

  -- A walk from a list of visited tasks that are grounded.
  abbrev pub Walks : List String → (String → Walk) → String → Type 0
  Walks v f d = (m : Marks) → m.visiting ≡ v → Grounded m.visited → Walked m (d ∷ []) (f d m)

  head_in :
      (x d : String) (v w : List String)
      → ((y : String) → elem y (d ∷ []) ≡ true → elem y v ≡ true)
      → ((y : String) → elem y w ≡ true → elem y v ≡ true)
      → elem x (d ∷ w) ≡ true
      → elem x v ≡ true
  head_in x d v w h k e = elim (Bool-cases (x =ˢ d)) [
    | inl p ↦ h x (rw p refl)
    | inr p ↦ k x (rw p at e)
  ]

  pub for_each_lem :
      (v : List String) (f : String → Walk) (ds : List String)
      → ((d : String) → elem d ds ≡ true → Walks v f d)
      → (m : Marks) → m.visiting ≡ v
      → Grounded m.visited
      → Walked m ds (for_each f ds m)
  unfolding for_each
  for_each_lem v f [] each m same g = through m refl g (λ x e. cc) (λ x e. e)
  for_each_lem v f (d ∷ ds) each m same g =
      rest (f d m) (each d (rw (=ˢ_refl d) refl) m same g)
        (λ m' same' g'. for_each_lem v f ds (λ x e. each x (in_tail x e)) m' same' g')
    where
      in_tail : (x : String) → elem x ds ≡ true → elem x (d ∷ ds) ≡ true
      in_tail x e = ground (arith, e)

      after :
          (m' : Marks)
          → m'.visiting ≡ m.visiting
          → ((x : String) → elem x (d ∷ []) ≡ true → elem x m'.visited ≡ true)
          → ((x : String) → elem x m.visited ≡ true → elem x m'.visited ≡ true)
          → (r : Result GraphFault (Unit {0}) × Marks) → Walked m' ds r
          → Walked m (d ∷ ds) r
      after m' same' seen kept _ (through m'' same'' g'' seen'' kept'') =
          through m'' (same'' ∙ same') g''
            (λ x e. head_in x d m''.visited ds (λ y p. kept'' y (seen y p)) seen'' e)
            (λ x e. kept'' x (kept x e))
      after m' same' seen kept _ (circular t m'' c) = circular t m'' c

      rest :
          (r : Result GraphFault (Unit {0}) × Marks)
          → Walked m (d ∷ []) r
          → ((m' : Marks) → m'.visiting ≡ v → Grounded m'.visited → Walked m' ds (for_each f ds m'))
          → Walked m (d ∷ ds) (continue r (λ _. for_each f ds))
      rest _ (through m' same' g' seen kept) next =
          after m' same' seen kept (for_each f ds m') (next m' (same' ∙ same) g')
      rest _ (circular t m' c) next = circular t m' c

  removed_head : (t : String) (v : List String) → removed t (t ∷ v) ≡ v
  unfolding removed
  removed_head t v = rw (=ˢ_refl t) refl

  -- What is left of a visit once the dependencies are visited.
  leave_lem :
      (t : String) (c : TaskContract F) (m : Marks)
      → lookup t tasks ≡ some c
      → (r : Result GraphFault (Unit {0}) × Marks)
      → Walked (record m { visiting = t ∷ m.visiting }) c.dependencies r
      → Walked m (t ∷ []) (continue r (λ _. leave t))
  leave_lem t c m found _ (through m' same g seen kept) =
      through (record m' { visiting = removed t m'.visiting; visited = t ∷ m'.visited })
        (ap (removed t) same ∙ removed_head t m.visiting)
        (λ x e. elim (String-cases x t) [
          | inl p ↦ subst (Acc DependsOn) (sym p) grounded
          | inr n ↦ g x (rw (=ˢ_ne x t n) at e)
        ])
        (λ x e. in_one x e) (λ x e. in_tail x (kept x e))
    where
      grounded : Acc DependsOn t
      grounded = Acc.intro t (λ d p. g d (seen d (ap (elem d) (same_list p) ∙ p.listed)))
        where
          same_list : {d : String} (p : DependsOn d t) → c.dependencies ≡ p.contract.dependencies
          same_list p = cc (found, p.found)

      in_one : (x : String) → elem x (t ∷ []) ≡ true → elem x (t ∷ m'.visited) ≡ true
      in_one x e = ground (arith, e)

      in_tail : (x : String) → elem x m'.visited ≡ true → elem x (t ∷ m'.visited) ≡ true
      in_tail x e = ground (arith, e)
  leave_lem t c m found _ (circular x m' k) = circular x m' k

  module _ (closed : Closed) where
    -- With fuel above the number of names that are not being visited, a visit neither runs out of
    -- it nor misses a key.
    pub visit_lem :
        (n : ℕ) (t : String) (m : Marks)
        → left (names tasks) m.visiting < n
        → contains t tasks ≡ true
        → Chained m.visiting t
        → Grounded m.visited
        → Walked m (t ∷ []) (visit n tasks t m)
    unfolding visit visit_marked
    visit_lem zero t m fuel known chain g = absurd (omega (arith, fuel))
    visit_lem (suc n) t m fuel known chain g = elim (Bool-cases (elem t m.visiting)) [
      | inl e ↦ rw e (circular t m (chain t e))
      | inr e ↦ elim (Bool-cases (elem t m.visited)) [
        | inl d ↦ rw (e, d) (through m refl g (λ x p. visited_already d x p) (λ x p. p))
        | inr d ↦ elim (Option-cases (lookup t tasks)) [
          | inl none_there ↦ cc (known, none_there)
          | inr (c, found) ↦
              let fewer = left_less t (names tasks) m.visiting (elem-names t tasks ∙ known) e in
              rw (e, d)
                (descend_lem c found e (λ d' p m' same g'.
                  visit_lem n d' m'
                    (subst (λ v. left (names tasks) v < n) (sym same) (omega (arith, fewer, fuel)))
                    (closed d' t (on c found d' p))
                    (subst (λ v. Chained v d') (sym same) (chain_on c found d' p)) g'))
        ]
      ]
    ]
      where
        visited_already :
            elem t m.visited ≡ true
            → (x : String) → elem x (t ∷ []) ≡ true
            → elem x m.visited ≡ true
        visited_already d x p = elim (String-cases x t) [
          | inl q ↦ ap (λ y. elem y m.visited) q ∙ d
          | inr q ↦ cc (rw (=ˢ_ne x t q) at p)
        ]

        on :
            (c : TaskContract F)
            → lookup t tasks ≡ some c
            → (d : String) → elem d c.dependencies ≡ true
            → DependsOn d t
        on c found d p = record { contract = c; found = found; listed = p }

        chain_on :
            (c : TaskContract F)
            → lookup t tasks ≡ some c
            → (d : String) → elem d c.dependencies ≡ true
            → Chained (t ∷ m.visiting) d
        chain_on c found d p x e = elim (String-cases x t) [
          | inl q ↦ direct d (subst (DependsOn d) (sym q) (on c found d p))
          | inr q ↦ further t d (chain x (rw (=ˢ_ne x t q) at e)) (on c found d p)
        ]

        descend_lem :
            (c : TaskContract F)
            → lookup t tasks ≡ some c
            → elem t m.visiting ≡ false
            → ((d : String)
                → elem d c.dependencies ≡ true
                → Walks (t ∷ m.visiting) (visit n tasks) d)
            → Walked m (t ∷ []) (descend tasks (visit n tasks) t m)
        descend_lem c found e each = rw found (
            leave_lem t c m found _ (
              for_each_lem (t ∷ m.visiting) (visit n tasks) c.dependencies each
                (record m { visiting = t ∷ m.visiting }) refl g))
