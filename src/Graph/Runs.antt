-- ===== src/Graph/Runs.antt =====
-- Where the successors of every task are known, the ordering loop raises nothing and empties its queue.
use finite_agent_physics.Prelude.{
  ℕ, zero, suc, ◌+◌, ◌≤◌, ◌<◌, ◌≡◌, refl, ap, ◌∙◌, ℤ, String, true, some, List, [], ◌∷◌, ◌++◌, Dict,
  lookup, contains, =ˢ_refl, Result, ok, elem, count, length, arith, continue, Option-cases, inl,
  inr,
}
use finite_agent_physics.Contracts.Profiles.{Floats}
use finite_agent_physics.Contracts.Tasks.{TaskContract}
use finite_agent_physics.Graph.Walks.{GraphFault, for_each}
use finite_agent_physics.Graph.Order.{
  Progress, Ordering, count_down, release_child, children, order_next, order_all,
}
use finite_agent_physics.Graph.Ordered.{potential, Spends, release_all-Spends}
use finite_agent_physics.Graph.Sound.{outstanding, Ordered, next-Ordered}
use finite_agent_physics.Graph.Counting.{counted_down, counted_down-Ordered}
use finite_agent_physics.Graph.Passes.{count_first}

elem_one : (c x : String) (xs : List String) → elem c xs ≡ true → elem c (x ∷ xs) ≡ true
elem_one c x xs e = ground (arith, e)

spent :
    {b : ℕ} {p : Progress} (r : Result GraphFault (Unit {0}) × Progress)
    → Spends b r
    → r ≡ (ok tt, p)
    → potential p ≤ b
spent _ (Spends.went p' h) e =
    omega (arith, h, ap (λ (r : Result GraphFault (Unit {0}) × Progress). potential r.1) e)
spent _ (Spends.failed p') e = cc

module _ {F : Floats} (known : Dict (TaskContract F)) where
  -- A run that raises nothing and keeps the invariant.
  pub record Runs (r : Result GraphFault (Unit {0}) × Progress) : Type 0 where
    pub last : Progress
    pub returned : r ≡ (ok tt, last)
    pub kept : Ordered known [] last

  release_child_returns :
      (c : String) (rest : List String) (p : Progress)
      → contains c known ≡ true
      → Ordered known (c ∷ rest) p
      → (p' : Progress) × (release_child c p ≡ (ok tt, p')) × Ordered known rest p'
  unfolding release_child count_down
  release_child_returns c rest p there o = elim (Option-cases (lookup c known)) [
    | inl u ↦ cc (there, u)
    | inr (contract, found) ↦
        let m = outstanding p.order contract.dependencies + count c rest in
        let now : lookup c p.indegree ≡ some (ℤ.pos (suc m)) =
          o.degrees c contract found
          ∙ ap (λ n. some (ℤ.pos n)) (omega (arith, count_first c rest)) in
        (counted_down known c m p, rw now refl, counted_down-Ordered known c m p rest o now)
  ]

  release_all-Runs :
      (cs : List String) (p : Progress)
      → ((c : String) → elem c cs ≡ true → contains c known ≡ true)
      → Ordered known cs p
      → Runs (for_each release_child cs p)
  unfolding for_each
  release_all-Runs [] p all o = record { last = p; returned = refl; kept = o }
  release_all-Runs (c ∷ cs) p all o =
      let (p', done, o') = release_child_returns c cs p (all c (rw (=ˢ_refl c) refl)) o in
      let rest = release_all-Runs cs p' (λ x e. all x (elem_one x c cs e)) o' in
      record {
        last = rest.last;
        returned = ap (λ r. continue r (λ _. for_each release_child cs)) done ∙ rest.returned;
        kept = rest.kept;
      }

  module _ (succ : Dict (List String))
      (counts : (p c : String) (cs : List String) (contract : TaskContract F)
        → lookup p succ ≡ some cs
        → lookup c known ≡ some contract
        → count c cs ≡ count p contract.dependencies)
      (has : (t : String) → contains t known ≡ true → contains t succ ≡ true)
      (within : (t c : String) (cs : List String)
        → lookup t succ ≡ some cs
        → elem c cs ≡ true
        → contains c known ≡ true) where
    order_next-Runs :
        (next : Ordering) (l : List String) (p : Progress)
        → p.ready ≡ l
        → Ordered known [] p
        → ((p' : Progress)
            → potential p' < potential p
            → Ordered known [] p'
            → (q : Runs (next p')) × (q.last.ready ≡ []))
        → (q : Runs (order_next succ next l p)) × (q.last.ready ≡ [])
    unfolding order_next children
    order_next-Runs next [] p e o rest = (record { last = p; returned = refl; kept = o }, e)
    order_next-Runs next (t ∷ ts) p e o rest = elim (Option-cases (lookup t succ)) [
      | inl u ↦ cc (has t known_there, u)
      | inr (cs, here) ↦
          let pass =
            release_all-Runs cs after (λ c i. within t c cs here i)
              (next-Ordered known succ counts t ts cs p e here o) in
          let less : potential pass.last < potential p = omega (
            arith,
            ap length e,
            spent {b = potential after} {p = pass.last} _
                (release_all-Spends (potential after) cs after (omega arith)) pass.returned,
          ) in
          let (end, emptied) = rest pass.last less pass.kept in
          (
            record {
              last = end.last;
              returned = rw here (ap (λ r. continue r (λ _. next)) pass.returned ∙ end.returned);
              kept = end.kept;
            },
            emptied,
          )
    ]
      where
        after : Progress
        after = record p { ready = ts; order = p.order ++ t ∷ [] }

        first_counted : 1 ≤ count t p.ready
        first_counted = omega (arith, ap (count t) e, count_first t ts)

        known_there : contains t known ≡ true
        known_there = o.only_known t (ℤ.pos 0) (o.reached t (omega (arith, first_counted)))

    pub order_all-Runs :
        (n : ℕ) (p : Progress)
        → potential p < n
        → Ordered known [] p
        → (q : Runs (order_all n succ p)) × (q.last.ready ≡ [])
    unfolding order_all
    order_all-Runs zero p h o = absurd (omega (arith, h))
    order_all-Runs (suc n) p h o =
        order_next-Runs (order_all n succ) p.ready p refl o
          (λ p' h' o'. order_all-Runs n p' (omega (arith, h, h')) o')
