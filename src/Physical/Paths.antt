-- ===== src/Physical/Paths.antt =====
-- `_critical_path`: the longest chain of dependencies among the selected tasks.
use finite_agent_physics.Prelude.{
  ℕ, max, String, Option, none, some, List, [], ◌∷◌, Dict, lookup, insert, elem, if◌then◌else◌,
  Result, ok, err, values,
}
use finite_agent_physics.Prelude.Results.{◌>>=◌}
use finite_agent_physics.Contracts.Profiles.{Floats}
use finite_agent_physics.Contracts.Tasks.{TaskContract}
use finite_agent_physics.Graph.Graphs.{by_id}
use finite_agent_physics.Graph.Walks.{GraphFault}
use finite_agent_physics.Graph.Order.{topological_order}
use finite_agent_physics.Physical.Arithmetic.{safe_add}

-- `max(values, default=0)`
unfoldable pub max_of : List ℕ → ℕ
max_of [] = 0
max_of (v ∷ vs) = max v (max_of vs)

abbrev pub look : {A : Type 0} → String → Dict A → Result GraphFault A
look k d = elim (lookup k d) [ none ↦ err GraphFault.key_error | some v ↦ ok v ]

unfoldable pub look_all : List String → Dict ℕ → Result GraphFault (List ℕ)
unfolding lookup
look_all [] d = ok []
look_all (k ∷ ks) d = do v ← look k d; vs ← look_all ks d; ok (v ∷ vs)

module _ {F : Floats} (known : Dict (TaskContract F)) (selected : List String)
    (local_values : Dict (Option ℕ)) where
  -- The ranks of the tasks of the order, after those that are there; `none` is the early return.
  unfoldable pub rank_all : List String → Dict ℕ → Result GraphFault (Option (Dict ℕ))
  unfolding look_all max_of safe_add insert
  rank_all [] ranks = ok (some ranks)
  rank_all (t ∷ ts) ranks =
      let next = λ (r : Dict ℕ). rank_all ts r in
      if elem t selected
      then (do
        own ← look t local_values
        elim own [
          | none ↦ ok none
          | some v ↦ do
            task ← look t known
            before ← look_all task.dependencies ranks
            elim (safe_add (max_of before) v) [
              | none ↦ ok none
              | some rank ↦ next (insert t rank ranks)
            ]
        ])
      else next ranks

-- The bound, `none` where the code's flag for an overflow is set.
unfoldable pub critical_path :
    {F : Floats}
    → List (TaskContract F)
    → List String
    → Dict (Option ℕ)
    → Result GraphFault (Option ℕ)
unfolding rank_all topological_order by_id max_of
critical_path tasks selected local_values = do
  order ← topological_order tasks
  ranks ← rank_all (by_id tasks) selected local_values order []
  elim ranks [ none ↦ ok none | some r ↦ ok (some (max_of (values r))) ]
