-- ===== src/Graph/Topological.antt =====
-- `topological_order` puts each task after its dependencies.
use finite_agent_physics.Prelude.{
  suc, ◌≤◌, ◌≡◌, refl, subst, ℤ, String, Bool, true, false, List, [], ◌∷◌, ◌++◌, map, Dict,
  contains, if◌then◌else◌, ◌==◌, Result, ok, err, elem, count, length, arith, continue, Bool-cases,
  inl, inr, repeats,
}
use finite_agent_physics.Contracts.Profiles.{Floats}
use finite_agent_physics.Contracts.Tasks.{TaskContract}
use finite_agent_physics.Graph.Graphs.{by_id, graph_errors}
use finite_agent_physics.Graph.Walks.{GraphFault}
use finite_agent_physics.Graph.Order.{
  Progress, start, complete_order, ordered, successors_of, order_with, topological_order,
}
use finite_agent_physics.Graph.Successors.{successors_lem, same_text, id_of}
use finite_agent_physics.Graph.Sound.{Precedes, Keeps}
use finite_agent_physics.Graph.Found.{elem_counted}
use finite_agent_physics.Graph.Passes.{order_all-Keeps}
use finite_agent_physics.Graph.Starts.{start-Ordered, dict_into-IsDict}

pub if_nil :
    {A : Type 0} (b : Bool) (x : A) (ys : List A)
    → (if b then x ∷ [] else []) ++ ys ≡ []
    → b ≡ false
if_nil true x ys e = cc
if_nil false x ys e = refl

module _ {F : Floats} where
  -- An order of the tasks by their names: each once, after all its dependencies.
  pub record IsTopological (tasks : List (TaskContract F)) (order : List String) : Type 0 where
    pub precedes : Precedes (by_id tasks) order
    pub distinct : (c : String) → count c order ≤ 1
    pub only_known : (c : String) → elem c order ≡ true → contains c (by_id tasks) ≡ true
    pub full : length order ≡ length (by_id tasks)

  complete_order-IsTopological :
      (tasks : List (TaskContract F)) (order : List String)
      (r : Result GraphFault (Unit {0}) × Progress)
      → Keeps (by_id tasks) [] r
      → (continue r (complete_order (length (by_id tasks)))).0 ≡ ok order
      → IsTopological tasks order
  unfolding complete_order
  complete_order-IsTopological tasks order _ (Keeps.raised e p) h = cc
  complete_order-IsTopological tasks order _ (Keeps.kept p o) h =
      elim (Bool-cases (length p.order == length (by_id tasks))) [
        | inr n ↦ cc (rw n at h)
        | inl y ↦ subst (IsTopological tasks) (ok_inj (rw y at h)) (record {
          precedes = o.precedes;
          distinct = λ c. omega (arith, o.distinct c);
          only_known = λ c e.
              o.only_known c (ℤ.pos 0) (o.reached c (omega (arith, elem_counted c p.order e)));
          full = ground (arith, y);
        })
      ]
    where
      ok_inj :
          {x y : List String} → (let r : Result GraphFault (List String) = ok x in r) ≡ ok y → x ≡ y
      ok_inj q = cc

  -- Where the graph has no errors, the order that `topological_order` returns has every task by its
  -- name, each once, and each after all the tasks that it depends on.
  pub topological_order-IsTopological :
      (tasks : List (TaskContract F)) (order : List String)
      → graph_errors tasks ≡ []
      → topological_order tasks ≡ ok order
      → IsTopological tasks order
  unfolding topological_order order_with ordered graph_errors by_id
  topological_order-IsTopological tasks order faultless returned =
      from (successors_of tasks) refl returned
    where
      unique : repeats same_text (map id_of tasks) ≡ false
      unique = if_nil _ _ _ faultless

      from :
          (r : Result GraphFault (Dict (List String)))
          → successors_of tasks ≡ r
          → order_with (by_id tasks) r ≡ ok order
          → IsTopological tasks order
      from (err e) made h = cc
      from (ok succ) made h =
          complete_order-IsTopological tasks order _
            (order_all-Keeps (by_id tasks) succ
              (λ p c cs contract here found.
                successors_lem tasks succ p c cs contract unique made here found)
              (suc (length (by_id tasks))) (start (by_id tasks))
              (start-Ordered (by_id tasks) (dict_into-IsDict tasks [] tt)))
            h
