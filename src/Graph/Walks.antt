-- ===== src/Graph/Walks.antt =====
-- `_validate_acyclic`: the depth-first walk, with fuel for the depth of the recursion.
use finite_agent_physics.Prelude.{
  ℕ, zero, suc, String, Bool, true, false, Option, none, some, List, [], ◌∷◌, map, Dict, lookup,
  elem, ◌=ˢ◌, if◌then◌else◌, Result, err, sorted, length, Action, pure, raise, modify, ◌>>=◌, ◌>>◌,
}
use finite_agent_physics.Contracts.Profiles.{Floats}
use finite_agent_physics.Contracts.Tasks.{TaskContract, is_nil}
use finite_agent_physics.Graph.Graphs.{GraphError, by_id, graph_errors}

pub record Marks : Type 0 where
  pub visiting : List String
  pub visited : List String

-- The exceptions: the errors of the graph, a cycle, a missing key, and an order that leaves tasks out.
-- The fuel is the model's own.
pub data GraphFault : Type 0 where
  invalid : List GraphError → GraphFault
  cycle : String → GraphFault
  key_error unordered no_fuel : GraphFault

-- `visiting.remove(task_id)`
unfoldable pub removed : String → List String → List String
removed k [] = []
removed k (x ∷ xs) = if x =ˢ k then xs else x ∷ removed k xs

abbrev pub Walk : Type 0
Walk = Action Marks GraphFault (Unit {0})

unfoldable pub for_each :
    {S : Type 0}
    → (String → Action S GraphFault (Unit {0}))
    → List String
    → Action S GraphFault (Unit {0})
for_each f [] = pure tt
for_each f (d ∷ ds) = f d >> for_each f ds

abbrev pub enter : String → Walk
enter t = modify (λ m. record m { visiting = t ∷ m.visiting })

abbrev pub leave : String → Walk
leave t = modify (λ m. record m { visiting = removed t m.visiting; visited = t ∷ m.visited })

module _ {F : Floats} where
  unfoldable pub dependencies_of : Option (TaskContract F) → Action Marks GraphFault (List String)
  dependencies_of none = raise GraphFault.key_error
  dependencies_of (some t) = pure t.dependencies

  unfoldable pub descend : Dict (TaskContract F) → (String → Walk) → String → Walk
  unfolding dependencies_of for_each removed
  descend tasks f t = do enter t; ds ← dependencies_of (lookup t tasks); for_each f ds; leave t

  unfoldable pub visit_marked :
      Dict (TaskContract F) → (String → Walk) → String → (visiting visited : Bool) → Walk
  unfolding descend
  visit_marked tasks f t true done = raise (GraphFault.cycle t)
  visit_marked tasks f t false true = pure tt
  visit_marked tasks f t false false = descend tasks f t

  unfoldable pub visit : ℕ → Dict (TaskContract F) → String → Walk
  unfolding visit_marked
  visit zero tasks t = raise GraphFault.no_fuel
  visit (suc n) tasks t =
      λ m. visit_marked tasks (visit n tasks) t (elem t m.visiting) (elem t m.visited) m

  abbrev pub names : Dict (TaskContract F) → List String
  names tasks = map (λ e. e.0) tasks

  -- One more than the tasks is fuel enough, since those being visited differ.
  unfoldable pub validate_acyclic : List (TaskContract F) → Result GraphFault (Unit {0})
  unfolding for_each visit by_id sorted
  validate_acyclic tasks =
      let known = by_id tasks in
      (for_each (visit (suc (length known)) known) (sorted (names known))
        (record { visiting = []; visited = [] })).0

  unfoldable pub validate_graph : List (TaskContract F) → Result GraphFault (Unit {0})
  unfolding graph_errors validate_acyclic
  validate_graph tasks =
      let errors = graph_errors tasks in
      if is_nil errors then validate_acyclic tasks else err (GraphFault.invalid errors)
