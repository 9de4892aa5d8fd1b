-- ===== src/Graph/Order.antt =====
-- `successors`, `topological_order` and `upward_ranks`, with fuel for the loop that orders.
use finite_agent_physics.Prelude.{
  ℕ, zero, suc, ℤ, int_pred, is_zero, String, not, Option, none, some, List, [], ◌∷◌, ◌++◌, map,
  Dict, lookup, insert, ◌==◌, if◌then◌else◌, Result, ok, err, sorted, length, Action, pure, raise,
  raise_if, gets, modify, continue, ◌>>=◌, ◌>>◌,
}
use finite_agent_physics.Contracts.Profiles.{Floats}
use finite_agent_physics.Contracts.Tasks.{TaskContract}
use finite_agent_physics.Graph.Graphs.{by_id}
use finite_agent_physics.Graph.Walks.{GraphFault, for_each}

-- `result[dependency].append(task_id)`
unfoldable pub append_at :
    (task dependency : String)
    → Option (List String)
    → Action (Dict (List String)) GraphFault (Unit {0})
append_at task d none = raise GraphFault.key_error
append_at task d (some l) = modify (insert d (l ++ task ∷ []))

unfoldable pub add_successor :
    (task dependency : String) → Action (Dict (List String)) GraphFault (Unit {0})
unfolding append_at
add_successor task d = gets (lookup d) >>= append_at task d

-- A task that is ready is next; its successors wait for one dependency less.
pub record Progress : Type 0 where
  pub indegree : Dict ℤ
  pub ready : List String
  pub order : List String

abbrev pub Ordering : Type 0
Ordering = Action Progress GraphFault (Unit {0})

unfoldable pub count_down : String → Option ℤ → Ordering
count_down child none = raise GraphFault.key_error
count_down child (some d) = modify (λ p. record p {
  indegree = insert child (int_pred d) p.indegree;
  ready = if is_zero (int_pred d) then sorted (p.ready ++ child ∷ []) else p.ready;
})

unfoldable pub release_child : String → Ordering
unfolding count_down sorted
release_child child = gets (λ p. lookup child p.indegree) >>= count_down child

unfoldable pub children : Option (List String) → Action Progress GraphFault (List String)
children none = raise GraphFault.key_error
children (some cs) = pure cs

unfoldable pub order_next : Dict (List String) → Ordering → List String → Ordering
unfolding children for_each release_child
order_next successors next [] = pure tt
order_next successors next (t ∷ ts) = do
  modify (λ p. record p { ready = ts; order = p.order ++ t ∷ [] })
  cs ← children (lookup t successors)
  for_each release_child cs
  next

unfoldable pub order_all : ℕ → Dict (List String) → Ordering
unfolding order_next
order_all zero successors = raise GraphFault.no_fuel
order_all (suc n) successors = λ p. order_next successors (order_all n successors) p.ready p

unfoldable pub zeros : Dict ℤ → List String
zeros [] = []
zeros ((k, d) ∷ ds) = let rest = zeros ds in if is_zero d then k ∷ rest else rest

unfoldable pub complete_order : ℕ → Unit {0} → Action Progress GraphFault (List String)
complete_order n _ = do
  order ← gets (λ p. p.order)
  raise_if (not (length order == n)) GraphFault.unordered
  pure order

module _ {F : Floats} where
  unfoldable pub empty_successors : List (TaskContract F) → Dict (List String) → Dict (List String)
  empty_successors [] d = d
  empty_successors (t ∷ ts) d = empty_successors ts (insert t.task_id [] d)

  unfoldable pub add_successors :
      List (TaskContract F) → Action (Dict (List String)) GraphFault (Unit {0})
  unfolding for_each add_successor
  add_successors [] = pure tt
  add_successors (t ∷ ts) = for_each (add_successor t.task_id) t.dependencies >> add_successors ts

  unfoldable pub successors_of : List (TaskContract F) → Result GraphFault (Dict (List String))
  unfolding empty_successors add_successors sorted
  successors_of tasks =
      ((add_successors tasks >> gets (map (λ e. (e.0, sorted e.1)))) (empty_successors tasks [])).0

  abbrev pub indegrees : Dict (TaskContract F) → Dict ℤ
  indegrees known = map (λ e. (e.0, ℤ.pos (length e.1.dependencies))) known

  abbrev pub start : Dict (TaskContract F) → Progress
  start known = record {
    indegree = indegrees known;
    ready = sorted (zeros (indegrees known));
    order = [];
  }

  -- Each name is ready once, so one more than the names is fuel enough.
  unfoldable pub ordered :
      Dict (TaskContract F) → Dict (List String) → Result GraphFault (List String)
  unfolding order_all zeros sorted complete_order
  ordered known successors =
      (continue (order_all (suc (length known)) successors (start known))
        (complete_order (length known))).0

  unfoldable pub order_with :
      Dict (TaskContract F)
      → Result GraphFault (Dict (List String))
      → Result GraphFault (List String)
  unfolding ordered
  order_with known (ok successors) = ordered known successors
  order_with known (err e) = err e

  unfoldable pub topological_order : List (TaskContract F) → Result GraphFault (List String)
  unfolding successors_of by_id order_with
  topological_order tasks = order_with (by_id tasks) (successors_of tasks)
