-- ===== src/Graph/Passes.antt =====
-- Each pass of the ordering loop keeps the invariant.
use finite_agent_physics.Prelude.{
  ℕ, zero, suc, ◌+◌, ◌≡◌, refl, ap, ◌∙◌, ℤ, String, some, List, [], ◌∷◌, Dict, lookup, =ˢ_refl,
  Result, count, arith, continue, Option-cases, inl, inr,
}
use finite_agent_physics.Contracts.Profiles.{Floats}
use finite_agent_physics.Contracts.Tasks.{TaskContract}
use finite_agent_physics.Graph.Walks.{GraphFault, for_each}
use finite_agent_physics.Graph.Order.{
  Progress, Ordering, count_down, release_child, children, order_next, order_all,
}
use finite_agent_physics.Graph.Sound.{outstanding, Ordered, Keeps, next-Ordered}
use finite_agent_physics.Graph.Counting.{counted_down-Ordered}

pub count_first : (c : String) (xs : List String) → count c (c ∷ xs) ≡ suc (count c xs)
unfolding count
count_first c xs = rw (=ˢ_refl c) refl

module _ {F : Floats} (known : Dict (TaskContract F)) where
  release_child-Keeps :
      (c : String) (rest : List String) (p : Progress)
      → Ordered known (c ∷ rest) p
      → Keeps known rest (release_child c p)
  unfolding release_child count_down
  release_child-Keeps c rest p o = elim (Option-cases (lookup c p.indegree)) [
    | inl e ↦ rw e (Keeps.raised _ p)
    | inr (d, e) ↦ elim (Option-cases (lookup c known)) [
      | inl u ↦ cc (o.only_known c d e, u)
      | inr (contract, found) ↦
          let m = outstanding p.order contract.dependencies + count c rest in
          let now : lookup c p.indegree ≡ some (ℤ.pos (suc m)) =
            o.degrees c contract found
            ∙ ap (λ n. some (ℤ.pos n)) (omega (arith, count_first c rest)) in
          rw now (Keeps.kept _ (counted_down-Ordered known c m p rest o now))
    ]
  ]

  then-Keeps :
      (rest rest' : List String) (r : Result GraphFault (Unit {0}) × Progress)
      (f : Progress → Result GraphFault (Unit {0}) × Progress)
      → Keeps known rest r
      → ((p : Progress) → Ordered known rest p → Keeps known rest' (f p))
      → Keeps known rest' (continue r (λ _. f))
  then-Keeps rest rest' _ f (Keeps.kept p o) next = next p o
  then-Keeps rest rest' _ f (Keeps.raised e p) next = Keeps.raised e p

  release_all-Keeps :
      (cs : List String) (p : Progress)
      → Ordered known cs p
      → Keeps known [] (for_each release_child cs p)
  unfolding for_each
  release_all-Keeps [] p o = Keeps.kept p o
  release_all-Keeps (c ∷ cs) p o =
      then-Keeps cs [] _ (for_each release_child cs) (release_child-Keeps c cs p o)
        (release_all-Keeps cs)

  module _ (succ : Dict (List String))
      (counts : (p c : String) (cs : List String) (contract : TaskContract F)
        → lookup p succ ≡ some cs
        → lookup c known ≡ some contract
        → count c cs ≡ count p contract.dependencies) where
    order_next-Keeps :
        (next : Ordering) (l : List String) (p : Progress)
        → p.ready ≡ l
        → Ordered known [] p
        → ((p' : Progress) → Ordered known [] p' → Keeps known [] (next p'))
        → Keeps known [] (order_next succ next l p)
    unfolding order_next children
    order_next-Keeps next [] p e o rest = Keeps.kept p o
    order_next-Keeps next (t ∷ ts) p e o rest = elim (Option-cases (lookup t succ)) [
      | inl u ↦ rw u (Keeps.raised _ _)
      | inr (cs, here) ↦ rw here (
          then-Keeps [] [] _ next
            (release_all-Keeps cs _ (next-Ordered known succ counts t ts cs p e here o)) rest)
    ]

    pub order_all-Keeps :
        (n : ℕ) (p : Progress) → Ordered known [] p → Keeps known [] (order_all n succ p)
    unfolding order_all
    order_all-Keeps zero p o = Keeps.raised _ p
    order_all-Keeps (suc n) p o =
        order_next-Keeps (order_all n succ) p.ready p refl o (order_all-Keeps n)
