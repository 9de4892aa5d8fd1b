-- ===== src/Graph/Sound.antt =====
-- The invariant of the ordering loop: the degree of a task is the number of its dependencies that are
-- not ordered yet.
use finite_agent_physics.Prelude.{
  ℕ, suc, ◌+◌, ◌≤◌, ◌≡◌, ◌≢◌, refl, sym, ap, ◌∙◌, ℤ, String, true, false, some, List, [], ◌∷◌, ◌++◌,
  Dict, lookup, contains, ◌=ˢ◌, =ˢ_refl, =ˢ_ne, if◌then◌else◌, String-cases, Result, ok, err, elem,
  elem-append, count, count-append, length, arith, Bool-cases, inl, inr,
}
use finite_agent_physics.Contracts.Profiles.{Floats}
use finite_agent_physics.Contracts.Tasks.{TaskContract}
use finite_agent_physics.Graph.Walks.{GraphFault}
use finite_agent_physics.Graph.Decided.{DependsOn}
use finite_agent_physics.Graph.Order.{Progress}

-- How many of the dependencies are not ordered yet.
unfoldable pub outstanding : List String → List String → ℕ
outstanding order [] = 0
outstanding order (d ∷ ds) =
    let rest = outstanding order ds in if elem d order then rest else suc rest

pub outstanding_start : (ds : List String) → outstanding [] ds ≡ length ds
unfolding outstanding
outstanding_start [] = refl
outstanding_start (d ∷ ds) = ap suc (outstanding_start ds)

outstanding_next :
    (t : String) (order ds : List String)
    → elem t order ≡ false
    → outstanding (order ++ t ∷ []) ds + count t ds ≡ outstanding order ds
unfolding outstanding count
outstanding_next t order [] e = omega arith
outstanding_next t order (d ∷ ds) e = elim (String-cases t d) [
  | inl q ↦
      let yes : (t =ˢ d) ≡ true = rw q (=ˢ_refl d) in
      let self : (d =ˢ t) ≡ true = rw q (=ˢ_refl d) in
      let out : elem d order ≡ false = ap (λ x. elem x order) (sym q) ∙ e in
      ground (arith, yes, self, out, elem-append d order (t ∷ []), outstanding_next t order ds e)
  | inr n ↦
      let no = =ˢ_ne t d n in
      let other = =ˢ_ne d t (λ q. n (sym q)) in
      ground (arith, no, other, elem-append d order (t ∷ []), outstanding_next t order ds e)
]

outstanding_none :
    (d : String) (order ds : List String)
    → outstanding order ds ≡ 0
    → elem d ds ≡ true
    → elem d order ≡ true
unfolding outstanding
outstanding_none d order [] z e = cc
outstanding_none d order (x ∷ xs) z e = elim (Bool-cases (elem x order)) [
  | inr out ↦ absurd (suc_ne (rw out at z))
  | inl there ↦ elim (String-cases d x) [
    | inl q ↦ ap (λ y. elem y order) q ∙ there
    | inr n ↦ outstanding_none d order xs (rw there at z) (rw (=ˢ_ne d x n) at e)
  ]
]
  where
    suc_ne : {n : ℕ} → suc n ≢ 0
    suc_ne p = omega (arith, p)

uncounted : (t : String) (xs : List String) → count t xs ≡ 0 → elem t xs ≡ false
unfolding count
uncounted t [] e = refl
uncounted t (x ∷ xs) e = ground (arith, uncounted t xs, e)

module _ {F : Floats} (known : Dict (TaskContract F)) where
  -- In the order each task comes after all its dependencies.
  pub data Precedes : List String → Type 0 where
    nothing : Precedes []
    one_more :
        (order : List String) (t : String)
        → Precedes order
        → ((d : String) → DependsOn known d t → elem d order ≡ true)
        → Precedes (order ++ t ∷ [])

  -- In the middle of a pass, with the successors that are still to be counted down.
  pub record Ordered (rest : List String) (p : Progress) : Type 0 where
    pub degrees :
        (c : String) (contract : TaskContract F)
        → lookup c known ≡ some contract
        → lookup c p.indegree
          ≡ some (ℤ.pos (outstanding p.order contract.dependencies + count c rest))
    pub only_known : (c : String) (d : ℤ) → lookup c p.indegree ≡ some d → contains c known ≡ true
    pub reached :
        (c : String) → 1 ≤ count c p.ready + count c p.order → lookup c p.indegree ≡ some (ℤ.pos 0)
    pub released :
        (c : String) → lookup c p.indegree ≡ some (ℤ.pos 0) → 1 ≤ count c p.ready + count c p.order
    pub distinct : (c : String) → count c p.ready + count c p.order ≤ 1
    pub precedes : Precedes p.order

  pub some_pos : {n m : ℕ} → some (ℤ.pos n) ≡ some (ℤ.pos m) → n ≡ m
  some_pos e = cc

  module _ (succ : Dict (List String))
      (counts : (p c : String) (cs : List String) (contract : TaskContract F)
        → lookup p succ ≡ some cs
        → lookup c known ≡ some contract
        → count c cs ≡ count p contract.dependencies) where
    pub next-Ordered :
        (t : String) (ts cs : List String) (p : Progress)
        → p.ready ≡ t ∷ ts
        → lookup t succ ≡ some cs
        → Ordered [] p
        → Ordered cs (record p { ready = ts; order = p.order ++ t ∷ [] })
    unfolding count
    next-Ordered t ts cs p e here o = record {
      degrees = λ c contract found.
          o.degrees c contract found
          ∙ ap (λ n. some (ℤ.pos n))
              (omega (
                arith,
                outstanding_next t p.order contract.dependencies unordered,
                counts t c cs contract here found,
              ));
      only_known = o.only_known;
      reached = λ c h. o.reached c (omega (arith, h, moved c));
      released = λ c e. omega (arith, o.released c e, moved c);
      distinct = λ c. omega (arith, o.distinct c, moved c);
      precedes = one_more p.order t o.precedes (λ d on.
          outstanding_none d p.order on.contract.dependencies
            (omega (
              arith,
              some_pos (sym (o.degrees t on.contract on.found) ∙ o.reached t (omega (arith, once))),
            ))
            on.listed);
    }
      where
        once : 1 ≤ count t p.ready
        once = rw (e, =ˢ_refl t) (omega arith)

        unordered : elem t p.order ≡ false
        unordered = uncounted t p.order (omega (arith, once, o.distinct t))

        moved :
            (c : String)
            → count c ts + count c (p.order ++ t ∷ []) ≡ count c p.ready + count c p.order
        moved c = rw e (ground (arith, count-append c p.order (t ∷ [])))

  -- What a pass keeps, if it raises nothing.
  pub data Keeps (rest : List String) : Result GraphFault (Unit {0}) × Progress → Type 0 where
    kept : (p : Progress) → Ordered rest p → Keeps rest (ok tt, p)
    raised : (e : GraphFault) (p : Progress) → Keeps rest (err e, p)
