-- ===== src/Graph/Graphs.antt =====
-- `ExecutionGraph` and the errors that its `validate` lists.
use finite_agent_physics.Prelude.{
  String, Bool, ◌&&◌, Option, none, some, List, [], ◌∷◌, ◌++◌, map, concat_map, repeats, Dict,
  lookup, insert, contains, elem, ◌=ˢ◌, if◌then◌else◌,
}
use finite_agent_physics.Contracts.Ports.{ContractError, InputPort, OutputPort}
use finite_agent_physics.Contracts.Profiles.{Floats}
use finite_agent_physics.Contracts.Tasks.{TaskContract, task_errors}

pub data GraphError : Type 0 where
  task_ids_repeat : GraphError
  in_contract : (task : String) → ContractError → GraphError
  unknown_dependency : (task dependency : String) → GraphError
  missing_producer indirect_producer missing_port incompatible_port :
      (task : String) → InputPort → GraphError

-- `{name(x): x for x in xs}`, into a dictionary
unfoldable pub dict_into : {A : Type 0} → (A → String) → List A → Dict A → Dict A
dict_into name [] d = d
dict_into name (x ∷ xs) d = dict_into name xs (insert (name x) x d)

abbrev pub ports_by_name : List OutputPort → Dict OutputPort
ports_by_name ports = dict_into (λ (p : OutputPort). p.name) ports []

abbrev pub fits_port : InputPort → OutputPort → Bool
fits_port p o =
    p.schema =ˢ o.schema && p.schema_version =ˢ o.schema_version && p.media_type =ˢ o.media_type

unfoldable pub port_found_errors : String → InputPort → Option OutputPort → List GraphError
port_found_errors task p none = GraphError.missing_port task p ∷ []
port_found_errors task p (some o) =
    if fits_port p o then [] else GraphError.incompatible_port task p ∷ []

module _ {F : Floats} where
  unfoldable pub by_id : List (TaskContract F) → Dict (TaskContract F)
  unfolding dict_into
  by_id tasks = dict_into (λ (t : TaskContract F). t.task_id) tasks []

  -- The set of known names holds the keys of `by_id`.
  unfoldable pub producer_errors :
      TaskContract F → InputPort → Option (TaskContract F) → List GraphError
  unfolding port_found_errors dict_into
  producer_errors t p none = GraphError.missing_producer t.task_id p ∷ []
  producer_errors t p (some producer) =
      if elem p.source_task_id t.dependencies
      then port_found_errors t.task_id p
          (lookup p.source_port (ports_by_name producer.output_ports))
      else GraphError.indirect_producer t.task_id p ∷ []

  unfoldable pub dependency_errors :
      Dict (TaskContract F) → TaskContract F → List String → List GraphError
  dependency_errors known t [] = []
  dependency_errors known t (d ∷ ds) =
      let rest = dependency_errors known t ds in
      if contains d known then rest else GraphError.unknown_dependency t.task_id d ∷ rest

  unfoldable pub errors_of_task : Dict (TaskContract F) → TaskContract F → List GraphError
  unfolding task_errors dependency_errors producer_errors
  errors_of_task known t =
      map (GraphError.in_contract t.task_id) (task_errors t)
      ++ dependency_errors known t t.dependencies
      ++ concat_map (λ (p : InputPort). producer_errors t p (lookup p.source_task_id known))
          t.input_ports

  unfoldable pub graph_errors : List (TaskContract F) → List GraphError
  unfolding errors_of_task by_id
  graph_errors tasks =
      (if repeats (λ a b. a =ˢ b) (map (λ (t : TaskContract F). t.task_id) tasks)
        then GraphError.task_ids_repeat ∷ []
        else [])
      ++ concat_map (errors_of_task (by_id tasks)) tasks
