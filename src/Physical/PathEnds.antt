-- ===== src/Physical/PathEnds.antt =====
-- What `_critical_path` returns.
use finite_agent_physics.Prelude.{
  ℕ, ◌≤◌, ◌<◌, ◌≡◌, ◌≢◌, refl, sym, ap, ◌∙◌, String, true, false, Option, none, some, List, [], ◌∷◌,
  Dict, IsDict, lookup, lookup-nil, contains, ◌=ˢ◌, =ˢ_refl, =ˢ_ne, String-cases, Result, ok, elem,
  arith, Bool-cases, Option-cases, inl, inr, ◌⊎◌, values, count,
}
use finite_agent_physics.Prelude.Results.{◌>>=◌}
use finite_agent_physics.Contracts.Profiles.{Floats}
use finite_agent_physics.Contracts.Tasks.{TaskContract}
use finite_agent_physics.Graph.Graphs.{by_id}
use finite_agent_physics.Graph.Walks.{GraphFault, names, validate_graph}
use finite_agent_physics.Graph.Decided.{DependsOn, elem-names}
use finite_agent_physics.Graph.Topological.{IsTopological}
use finite_agent_physics.Graph.Total.{accepted-IsTopological, at_most, uncounted}
use finite_agent_physics.Graph.Reached.{not_longer}
use finite_agent_physics.Graph.Validated.{length-names}
use finite_agent_physics.Physical.Arithmetic.{int64_max}
use finite_agent_physics.Physical.Paths.{max_of, critical_path}
use finite_agent_physics.Physical.Ranks.{
  max_cases, Precedes-After, Chain, Ranked, RankEnd, some_inj,
}
use finite_agent_physics.Physical.CriticalPath.{passed, elem-passed, rank_all-RankEnd}

max_of-values-above :
    (d : Dict ℕ) (k : String) (n : ℕ) → lookup k d ≡ some n → n ≤ max_of (values d)
unfolding lookup max_of
max_of-values-above [] k n e = cc
max_of-values-above ((j, v) ∷ d) k n e = elim (Bool-cases (k =ˢ j)) [
  | inl y ↦ let same : v ≡ n = some_inj (rw y at e) in omega (arith, same)
  | inr m ↦ omega (arith, max_of-values-above d k n (rw m at e))
]

max_of-values-reached :
    (d : Dict ℕ)
    → IsDict d
    → (max_of (values d) ≡ 0) ⊎ ((k : String) × (lookup k d ≡ some (max_of (values d))))
unfolding lookup max_of
max_of-values-reached [] h = inl refl
max_of-values-reached ((j, v) ∷ d) h = elim (max_cases v (max_of (values d))) [
  | inl q ↦ inr (j, rw (=ˢ_refl j, q) refl)
  | inr q ↦ elim (max_of-values-reached d h.1) [
    | inl z ↦ inl (q ∙ z)
    | inr (k, e) ↦ elim (String-cases k j) [
      | inl p ↦ cc (h.0, e, p)
      | inr n ↦ inr (k, rw (=ˢ_ne k j n, q) e)
    ]
  ]
]

nothing-Ranked :
    {F : Floats} (known : Dict (TaskContract F)) (selected : List String)
    (local_values : Dict (Option ℕ))
    → Ranked known local_values selected [] []
nothing-Ranked known selected local_values = record {
  each = λ t e s. cc;
  above = λ t r n e. absurd (none_ne (sym (lookup-nil t) ∙ e));
  reached = λ t r e. absurd (none_ne (sym (lookup-nil t) ∙ e));
  once = tt;
}
  where
    none_ne : {n : ℕ} → none ≢ some n
    none_ne e = cc

module _ {F : Floats} where
  -- What `_critical_path` returns: the greatest value of a chain, or nothing, of a task without a
  -- value or of a chain whose value is above 2 ^ 63 - 1.
  pub data PathEnd (known : Dict (TaskContract F)) (local_values : Dict (Option ℕ))
      : Result GraphFault (Option ℕ) → Type 0 where
    heaviest :
        (b : ℕ)
        → ((t : String) (n : ℕ) → Chain known local_values t n → n ≤ b)
        → (b ≡ 0) ⊎ ((t : String) × Chain known local_values t b)
        → PathEnd known local_values (ok (some b))
    undefined :
        (t : String) → lookup t local_values ≡ some none → PathEnd known local_values (ok none)
    overflowed :
        (t : String) (n : ℕ)
        → Chain known local_values t n
        → int64_max < n
        → PathEnd known local_values (ok none)

  Chain-has :
      (known : Dict (TaskContract F)) (local_values : Dict (Option ℕ)) (t : String) (n : ℕ)
      → Chain known local_values t n
      → contains t local_values ≡ true
  Chain-has known local_values _ _ (Chain.alone t v e) = rw e refl
  Chain-has known local_values _ _ (Chain.longer d t n v c p e) = rw e refl

  module _ (tasks : List (TaskContract F)) (order : List String)
      (o : IsTopological tasks order) where
    all_in_order : (t : String) → contains t (by_id tasks) ≡ true → elem t order ≡ true
    unfolding count
    all_in_order t there = elim (Bool-cases (elem t order)) [
      | inl e ↦ e
      | inr e ↦ absurd (
          omega (
            arith,
            o.full,
            length-names (by_id tasks),
            not_longer (t ∷ order) (names (by_id tasks)) (λ c.
                at_most c (t ∷ order) (names (by_id tasks)) (one_each e c)
                  (λ h. elem-names c (by_id tasks) ∙ known_each c h)),
          ))
    ]
      where
        one_each : elem t order ≡ false → (c : String) → count c (t ∷ order) ≤ 1
        one_each e c = elim (String-cases c t) [
          | inl q ↦ ground (arith, uncounted c order (ap (λ x. elem x order) q ∙ e))
          | inr n ↦ rw (=ˢ_ne c t n) (o.distinct c)
        ]

        known_each : (c : String) → elem c (t ∷ order) ≡ true → contains c (by_id tasks) ≡ true
        known_each c h = elim (String-cases c t) [
          | inl q ↦ ap (λ x. contains x (by_id tasks)) q ∙ there
          | inr n ↦ o.only_known c (rw (=ˢ_ne c t n) at h)
        ]

    finish_path :
        (selected : List String) (local_values : Dict (Option ℕ))
        (r : Result GraphFault (Option (Dict ℕ)))
        → ((t : String) → contains t local_values ≡ elem t selected)
        → ((t : String) → elem t selected ≡ true → contains t (by_id tasks) ≡ true)
        → RankEnd (by_id tasks) local_values selected (passed [] order) r
        → PathEnd
            (by_id tasks)
            local_values
            (r >>= λ ranks. elim ranks [ none ↦ ok none | some d ↦ ok (some (max_of (values d))) ])
    finish_path selected local_values _ same has_task (RankEnd.undefined t e) =
        PathEnd.undefined t e
    finish_path selected local_values _ same has_task (RankEnd.overflowed t n c h) =
        PathEnd.overflowed t n c h
    finish_path selected local_values _ same has_task (RankEnd.ranked ranks r) =
        PathEnd.heaviest (max_of (values ranks))
          (λ t n chain.
            let here : elem t selected ≡ true =
              sym (same t) ∙ Chain-has (by_id tasks) local_values t n chain in
            let there = elem-passed t [] order (all_in_order t (has_task t here)) in
            elim (Option-cases (lookup t ranks)) [
              | inl absent ↦ cc (r.each t there here, absent)
              | inr (m, found) ↦
                  omega (arith, r.above t m n found chain, max_of-values-above ranks t m found)
            ])
          (elim (max_of-values-reached ranks r.once) [
            | inl z ↦ inl z
            | inr (t, e) ↦ inr (t, r.reached t _ e)
          ])

  -- Of a graph that `validate` accepts, for tasks selected with all their dependencies and a value
  -- or `None` for exactly these, `_critical_path` raises nothing. It returns the greatest sum that a
  -- chain of dependencies has; or `None`, where a task's value is `None` or the sum of a chain is
  -- above 2 ^ 63 - 1.
  pub critical_path-PathEnd :
      (tasks : List (TaskContract F)) (selected : List String) (local_values : Dict (Option ℕ))
      → validate_graph tasks ≡ ok tt
      → ((d t : String)
          → elem t selected ≡ true
          → DependsOn (by_id tasks) d t
          → elem d selected ≡ true)
      → ((t : String) → elem t selected ≡ true → contains t (by_id tasks) ≡ true)
      → ((t : String) → contains t local_values ≡ elem t selected)
      → PathEnd (by_id tasks) local_values (critical_path tasks selected local_values)
  unfolding critical_path
  critical_path-PathEnd tasks selected local_values accepted closed has_task same =
      let (order, returned, o) = accepted-IsTopological tasks accepted in
      rw returned (
        finish_path tasks order o selected local_values _ same has_task (
          rank_all-RankEnd (by_id tasks) selected local_values closed has_task (λ t e. same t ∙ e)
            order [] [] (Precedes-After (by_id tasks) order o.precedes)
            (nothing-Ranked (by_id tasks) selected local_values)))
