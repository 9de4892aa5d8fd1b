-- ===== src/Graph/Validated.antt =====
-- What `validate` of the graph accepts and refuses.
use mathlib.Core.WellFounded.{Acc}
use finite_agent_physics.Prelude.{
  none, lookup-nil, none, =ˢ_ne, suc, ◌<◌, ◌≡◌, ◌≢◌, refl, sym, ap, subst, ◌∙◌, String, true, false,
  some, List, [], ◌∷◌, ◌++◌, concat_map, Dict, lookup, insert, contains, elem, elem-sorted, sorted,
  ◌=ˢ◌, Result, ok, err, length, arith, Bool-cases, inl, inr, if◌then◌else◌, lookup-insert,
  String-cases, All,
}
use finite_agent_physics.Contracts.Profiles.{Floats}
use finite_agent_physics.Contracts.Tasks.{TaskContract, is_nil}
use finite_agent_physics.Graph.Graphs.{
  GraphError, dict_into, by_id, dependency_errors, errors_of_task, graph_errors,
}
use finite_agent_physics.Graph.Walks.{
  Marks, GraphFault, visit, names, validate_acyclic, validate_graph,
}
use finite_agent_physics.Graph.Decided.{
  left, left_all, elem-names, DependsOn, Reaches, Closed, Walked, visit_lem, for_each_lem,
}

pub append_nil : {A : Type 0} (xs ys : List A) → xs ++ ys ≡ [] → (xs ≡ []) × (ys ≡ [])
append_nil [] ys e = (refl, e)
append_nil (x ∷ xs) ys e = cc

pub concat_nil :
    {A B : Type 0} (f : A → List B) (xs : List A) → concat_map f xs ≡ [] → All (λ x. f x ≡ []) xs
concat_nil f [] e = tt
concat_nil f (x ∷ xs) e =
    let (here, rest) = append_nil (f x) (concat_map f xs) e in (here, concat_nil f xs rest)

-- What holds of every value that is put in holds of every value that is found.
pub dict_into-All :
    {A : Type 0} (P : A → Type 0) (name : A → String) (xs : List A) (d : Dict A)
    → All P xs
    → ((k : String) (v : A) → lookup k d ≡ some v → P v)
    → (k : String) (v : A) → lookup k (dict_into name xs d) ≡ some v
    → P v
unfolding dict_into
dict_into-All P name [] d all before k v e = before k v e
dict_into-All {A = A} P name (x ∷ xs) d all before k v e =
    dict_into-All P name xs (insert (name x) x d) all.1
      (λ k' v' e'. placed k' v' (sym (lookup-insert k' (name x) x d) ∙ e')) k v e
  where
    placed :
        (k' : String) (v' : A) → (if k' =ˢ name x then some x else lookup k' d) ≡ some v' → P v'
    placed k' v' e' = elim (Bool-cases (k' =ˢ name x)) [
      | inl p ↦ subst P (some_inj (rw p at e')) all.0
      | inr p ↦ before k' v' (rw p at e')
    ]
      where
        some_inj : {x y : A} → some x ≡ some y → x ≡ y
        some_inj e = cc

pub length-names : {F : Floats} (d : Dict (TaskContract F)) → length (names d) ≡ length d
length-names [] = refl
length-names (x ∷ xs) = ap suc (length-names xs)

false_ne : false ≢ true
false_ne p = cc

none_ne : {A : Type 0} {x : A} → none ≢ some x
none_ne p = cc

enough :
    {F : Floats} (known : Dict (TaskContract F)) (m : Marks)
    → m.visiting ≡ []
    → left (names known) m.visiting < suc (length known)
enough known m same =
    omega (arith, ap (left (names known)) same, left_all (names known), length-names known)

module _ {F : Floats} where
  pub known_dependency :
      (known : Dict (TaskContract F)) (t : TaskContract F) (ds : List String)
      → dependency_errors known t ds ≡ []
      → (d : String) → elem d ds ≡ true
      → contains d known ≡ true
  unfolding dependency_errors
  known_dependency known t [] e d p = cc
  known_dependency known t (x ∷ xs) e d p = elim (Bool-cases (contains x known)) [
    | inr u ↦ cc (rw u at e)
    | inl u ↦ elim (String-cases d x) [
      | inl q ↦ ap (λ y. contains y known) q ∙ u
      | inr q ↦ known_dependency known t xs (rw u at e) d (rw (=ˢ_ne d x q) at p)
    ]
  ]

  -- The two ends of the walk.
  pub data Judged (tasks : List (TaskContract F)) : Result GraphFault (Unit {0}) → Type 0 where
    accepted :
        graph_errors tasks ≡ []
        → ((t : String) → contains t (by_id tasks) ≡ true → Acc (DependsOn (by_id tasks)) t)
        → Judged tasks (ok tt)
    circular :
        (t : String)
        → graph_errors tasks ≡ []
        → Reaches (by_id tasks) t t
        → Judged tasks (err (GraphFault.cycle t))
    faulty :
        (e : GraphError) (es : List GraphError)
        → graph_errors tasks ≡ e ∷ es
        → Judged tasks (err (GraphFault.invalid (e ∷ es)))

  pub faultless_tasks :
      (tasks : List (TaskContract F))
      → graph_errors tasks ≡ []
      → All (λ t. errors_of_task (by_id tasks) t ≡ []) tasks
  unfolding graph_errors
  faultless_tasks tasks e =
      let (unique, rest) = append_nil _ _ e in concat_nil (errors_of_task (by_id tasks)) tasks rest

  pub Closed-by_id :
      (tasks : List (TaskContract F)) → graph_errors tasks ≡ [] → Closed (by_id tasks)
  unfolding graph_errors errors_of_task by_id
  Closed-by_id tasks e d t on =
      let faultless = faultless_tasks tasks e in
      let complete =
        dict_into-All (λ c. errors_of_task (by_id tasks) c ≡ []) (λ (c : TaskContract F). c.task_id)
          tasks [] faultless (λ k v p. absurd (none_ne (sym (lookup-nil k) ∙ p))) t on.contract
          on.found in
      let (rest, ports) = append_nil _ _ complete in
      let (contracts, dependencies) = append_nil _ _ rest in
      known_dependency (by_id tasks) on.contract on.contract.dependencies dependencies d on.listed

  judge_walk :
      (tasks : List (TaskContract F))
      → graph_errors tasks ≡ []
      → (r : Result GraphFault (Unit {0}) × Marks)
      → Walked
          (by_id tasks)
          (record { visiting = []; visited = [] })
          (sorted (names (by_id tasks)))
          r
      → Judged tasks r.0
  judge_walk tasks e _ (Walked.through m same g seen kept) = Judged.accepted e (λ t k.
      let known = by_id tasks in
      g t (seen t (elem-sorted t (names known) ∙ (elem-names t known ∙ k))))
  judge_walk tasks e _ (Walked.circular t m c) = Judged.circular t e c

  acyclic_lem :
      (tasks : List (TaskContract F))
      → graph_errors tasks ≡ []
      → Judged tasks (validate_acyclic tasks)
  unfolding validate_acyclic
  acyclic_lem tasks e = judge_walk tasks e _ (
      for_each_lem (by_id tasks) [] (visit (suc (length (by_id tasks))) (by_id tasks))
        (sorted (names (by_id tasks)))
        (λ d p m same g.
          visit_lem (by_id tasks) (Closed-by_id tasks e) (suc (length (by_id tasks))) d m
            (enough (by_id tasks) m same)
            (sym (elem-names d (by_id tasks)) ∙ (sym (elem-sorted d (names (by_id tasks))) ∙ p))
            (λ x q. cc (q, same)) g)
        (record { visiting = []; visited = [] }) refl (λ x q. absurd (false_ne q)))

  -- `validate` of every list of tasks ends in one of three ways. It accepts the graph: then there
  -- are no errors, and from every task the dependencies lead to an end (they are well founded). It
  -- reports a cycle: then there are no errors, and the task reported depends on itself through
  -- others or directly. Or it reports the errors, at least one. A depth of one more than the number
  -- of the names is enough for the recursion.
  pub validate_graph-Judged : (tasks : List (TaskContract F)) → Judged tasks (validate_graph tasks)
  unfolding validate_graph
  validate_graph-Judged tasks = from_errors (graph_errors tasks) refl
    where
      from_errors :
          (es : List GraphError)
          → graph_errors tasks ≡ es
          → Judged tasks (if is_nil es then validate_acyclic tasks else err (GraphFault.invalid es))
      from_errors [] e = acyclic_lem tasks e
      from_errors (x ∷ xs) e = Judged.faulty x xs e
