-- ===== src/Graph/Total.antt =====
-- A graph that `validate` accepts is always ordered.
use mathlib.Core.WellFounded.{Acc}
use finite_agent_physics.Prelude.{
  ℕ, suc, ◌≤◌, ◌≡◌, ◌≢◌, refl, sym, ap, ◌∙◌, ℤ, String, true, false, List, [], ◌∷◌, map, Dict,
  IsDict, contains, ◌=ˢ◌, =ˢ_refl, =ˢ_ne, String-cases, ◌==◌, Result, ok, err, elem, count, length,
  arith, continue, Bool-cases, inl, inr, repeats, is_some,
}
use finite_agent_physics.Contracts.Profiles.{Floats}
use finite_agent_physics.Contracts.Tasks.{TaskContract}
use finite_agent_physics.Graph.Graphs.{by_id, graph_errors}
use finite_agent_physics.Graph.Walks.{GraphFault, names}
use finite_agent_physics.Graph.Decided.{DependsOn, elem-names}
use finite_agent_physics.Graph.Order.{
  Progress, start, complete_order, ordered, order_with, topological_order,
}
use finite_agent_physics.Graph.Successors.{successors_lem, same_text, id_of}
use finite_agent_physics.Graph.Sound.{Ordered}
use finite_agent_physics.Graph.Walks.{validate_graph}
use finite_agent_physics.Graph.Validated.{length-names, Judged, validate_graph-Judged, Closed-by_id}
use finite_agent_physics.Graph.Starts.{start-Ordered, dict_into-IsDict}
use finite_agent_physics.Graph.Runs.{order_all-Runs}
use finite_agent_physics.Graph.Reached.{all_ordered, not_longer}
use finite_agent_physics.Graph.Found.{Listed, graph-Listed, elem_counted}
use finite_agent_physics.Graph.Topological.{if_nil, IsTopological, topological_order-IsTopological}
use finite_agent_physics.Graph.Ordered.{potential-start}

pub uncounted : (c : String) (xs : List String) → elem c xs ≡ false → count c xs ≡ 0
unfolding count
uncounted c [] e = refl
uncounted c (x ∷ xs) e = ground (arith, uncounted c xs, e)

-- What is listed at most once, and only where the other list has it.
pub at_most :
    (c : String) (xs ys : List String)
    → count c xs ≤ 1
    → (elem c xs ≡ true → elem c ys ≡ true)
    → count c xs ≤ count c ys
at_most c xs ys once h = elim (Bool-cases (elem c xs)) [
  | inl e ↦ omega (arith, once, elem_counted c ys (h e))
  | inr e ↦ omega (arith, uncounted c xs e)
]

count-names :
    {F : Floats} (d : Dict (TaskContract F)) → IsDict d → (c : String) → count c (names d) ≤ 1
unfolding count
count-names [] h c = omega arith
count-names ((k, t) ∷ d) h c = elim (String-cases c k) [
  | inl q ↦
      let yes : (c =ˢ k) ≡ true = rw (q, =ˢ_refl k) refl in
      let absent : elem c (names d) ≡ false =
        elem-names c d ∙ (ap (λ x. contains x d) q ∙ ap is_some h.0) in
      ground (arith, yes, uncounted c (names d) absent)
  | inr n ↦ let no = =ˢ_ne c k n in ground (arith, no, count-names d h.1 c)
]

complete_lem : (n : ℕ) (p : Progress) → length p.order ≡ n → (complete_order n tt p).0 ≡ ok p.order
unfolding complete_order
complete_lem n p full =
    let all_there : (length p.order == n) ≡ true = ground (arith, full) in rw all_there refl

module _ {F : Floats} (tasks : List (TaskContract F)) where
  pub names_once : (c : String) → count c (names (by_id tasks)) ≤ 1
  unfolding by_id
  names_once c = count-names (by_id tasks) (dict_into-IsDict tasks [] tt) c

  all_in :
      (p : Progress)
      → Ordered (by_id tasks) [] p
      → p.ready ≡ []
      → ((t : String) → contains t (by_id tasks) ≡ true → elem t p.order ≡ true)
      → length p.order ≡ length (by_id tasks)
  all_in p o emptied all = omega (
    arith,
    not_longer p.order (names (by_id tasks)) (λ c.
        at_most c p.order (names (by_id tasks)) (omega (arith, o.distinct c)) (λ e.
          elem-names c (by_id tasks)
          ∙ o.only_known c (ℤ.pos 0) (o.reached c (omega (arith, elem_counted c p.order e))))),
    not_longer (names (by_id tasks)) p.order (λ c.
        at_most c (names (by_id tasks)) p.order (names_once c)
          (λ e. all c (sym (elem-names c (by_id tasks)) ∙ e))),
    length-names (by_id tasks),
  )

  -- The loop ends with every task in order.
  ordered_lem :
      graph_errors tasks ≡ []
      → ((t : String) → contains t (by_id tasks) ≡ true → Acc (DependsOn (by_id tasks)) t)
      → (order : List String) × (topological_order tasks ≡ ok order)
  unfolding topological_order order_with ordered graph_errors by_id
  ordered_lem faultless grounded =
      let known = by_id tasks in
      let (run, emptied) =
        order_all-Runs known found.succ
          (λ p c cs contract here there.
            successors_lem tasks found.succ p c cs contract unique found.made here there)
          found.has found.within (suc (length known)) (start known) (potential-start known)
          (start-Ordered known (dict_into-IsDict tasks [] tt)) in
      let full = all_in run.last run.kept emptied (λ t there.
        all_ordered known (Closed-by_id tasks faultless) run.last run.kept emptied t
          (grounded t there) there) in
      (
        run.last.order,
        ap (order_with known) found.made
            ∙ (ap (λ r. (continue r (complete_order (length known))).0) run.returned
                ∙ complete_lem (length known) run.last full),
      )
    where
      found : Listed tasks
      found = graph-Listed tasks faultless

      unique : repeats same_text (map id_of tasks) ≡ false
      unique = if_nil _ _ _ faultless

  -- Where `validate` returns, `topological_order` returns too: an order that has every task by its
  -- name, each once, and each after all the tasks that it depends on.
  pub accepted-IsTopological :
      validate_graph tasks ≡ ok tt
      → (order : List String) × (topological_order tasks ≡ ok order) × IsTopological tasks order
  accepted-IsTopological accepted =
      from (validate_graph tasks) (validate_graph-Judged tasks) accepted
    where
      err_ne : {x : GraphFault} → (let r : Result GraphFault (Unit {0}) = err x in r) ≢ ok tt
      err_ne p = cc

      from :
          (r : Result GraphFault (Unit {0}))
          → Judged tasks r
          → r ≡ ok tt
          → (order : List String) × (topological_order tasks ≡ ok order) × IsTopological tasks order
      from _ (Judged.accepted faultless grounded) e =
          let (order, returned) = ordered_lem faultless grounded in
          (order, returned, topological_order-IsTopological tasks order faultless returned)
      from _ (Judged.circular t faultless c) e = absurd (err_ne e)
      from _ (Judged.faulty x xs h) e = absurd (err_ne e)
