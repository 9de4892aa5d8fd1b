-- ===== src/Physical/Inputs.antt =====
-- `_validate_inputs` and `_protected_task_ids`. A set of Python's is a list here, in the order of its
-- first insertions; the code reads the two sets in an order that the language leaves open, which
-- decides only which of several errors is raised.
use finite_agent_physics.Prelude.{
  ℕ, zero, suc, ◌+◌, String, Bool, not, Option, none, some, List, [], ◌∷◌, map, any_of, Dict,
  lookup, contains, elem, sorted, length, if◌then◌else◌, Result, ok, err,
}
use finite_agent_physics.Prelude.Results.{◌>>=◌, ◌>>◌, raise_when}
use finite_agent_physics.Contracts.Profiles.{Floats, BackendProfile}
use finite_agent_physics.Contracts.Tasks.{TaskContract, is_nil}
use finite_agent_physics.Contracts.Envelopes.{RunEnvelope, envelope_errors}
use finite_agent_physics.Graph.Graphs.{by_id}
use finite_agent_physics.Graph.Walks.{GraphFault, validate_graph}
use finite_agent_physics.Physical.Amounts.{
  PhysicalError, Amounts, Caps, caps_of, amounts_of, profile_eq,
}

abbrev pub Selection : Type 0
Selection = List (String × Amounts)

abbrev pub got : {A : Type 0} → PhysicalError → Option A → Result PhysicalError A
got e none = err e
got e (some a) = ok a

-- `except ValueError`, which a KeyError is not
abbrev pub checked_graph : Result GraphFault (Unit {0}) → Result PhysicalError (Unit {0})
checked_graph (ok a) = ok tt
checked_graph (err GraphFault.key_error) = err (PhysicalError.escaped GraphFault.key_error)
checked_graph (err fault) = err (PhysicalError.invalid_graph fault)

-- The tasks that are reached from the mandatory ones: those seen, and the stack of those to follow.
pub record Frontier : Type 0 where
  pub protected : List String
  pub stack : List String

abbrev pub meet : Frontier → String → Frontier
meet f d =
    if elem d f.protected then f else record { protected = d ∷ f.protected; stack = d ∷ f.stack }

unfoldable pub meet_all : List String → Frontier → Frontier
meet_all [] f = f
meet_all (d ∷ ds) f = meet_all ds (meet f d)

-- The names of the list that the other has not.
unfoldable pub difference : List String → (String → Bool) → List String
difference [] has = []
difference (x ∷ xs) has = let rest = difference xs has in if has x then rest else x ∷ rest

module _ {F : Floats} where
  unfoldable pub mandatory : List (TaskContract F) → Frontier → Frontier
  mandatory [] f = f
  mandatory (t ∷ ts) f = mandatory ts (if t.optional then f else meet f t.task_id)

  -- Each pass takes one task off the stack, and a task is put on it once.
  unfoldable pub follow : ℕ → Dict (TaskContract F) → Frontier → Result PhysicalError (List String)
  unfolding meet_all
  follow zero known f = err PhysicalError.no_fuel
  follow (suc n) known f = elim f.stack [
    | [] ↦ ok f.protected
    | t ∷ ts ↦ do
      task ← got (PhysicalError.unknown_dependency t) (lookup t known)
      follow n known (meet_all task.dependencies (record f { stack = ts }))
  ]

  unfoldable pub protected_task_ids : List (TaskContract F) → Result PhysicalError (List String)
  unfolding follow mandatory by_id
  protected_task_ids tasks =
      follow (suc (length tasks + length (by_id tasks))) (by_id tasks)
        (mandatory tasks (record { protected = []; stack = [] }))

  -- Each selected task has its dependencies selected.
  unfoldable pub check_dependencies :
      Dict (TaskContract F)
      → Dict (BackendProfile F)
      → List String
      → Result PhysicalError (Unit {0})
  unfolding difference
  check_dependencies known selected [] = ok tt
  check_dependencies known selected (t ∷ ts) = do
    task ← got PhysicalError.key_error (lookup t known)
    let lacking = difference task.dependencies (λ d. contains d selected)
    raise_when (not (is_nil lacking)) (PhysicalError.lacks_dependencies t (sorted lacking))
    check_dependencies known selected ts

  unfoldable pub select_one :
      TaskContract F → String → BackendProfile F → Result PhysicalError Amounts
  unfolding profile_eq amounts_of
  select_one task t profile = do
    raise_when (not (any_of (profile_eq profile) task.profiles)) (PhysicalError.not_declared t)
    raise_when (F.less profile.quality task.min_quality) (PhysicalError.below_floor t)
    amounts_of t profile

  unfoldable pub select_all :
      Dict (TaskContract F) → Dict (BackendProfile F) → List String → Result PhysicalError Selection
  unfolding select_one
  select_all known selected [] = ok []
  select_all known selected (t ∷ ts) = do
    task ← got PhysicalError.key_error (lookup t known)
    profile ← got PhysicalError.key_error (lookup t selected)
    amounts ← select_one task t profile
    rest ← select_all known selected ts
    ok ((t, amounts) ∷ rest)

  -- The caps of the envelope are given back too, as the numbers that were checked.
  unfoldable pub validate_inputs :
      List (TaskContract F)
      → RunEnvelope F
      → Dict (BackendProfile F)
      → Result PhysicalError (Caps × Selection)
  unfolding caps_of envelope_errors by_id difference protected_task_ids check_dependencies
      select_all validate_graph sorted
  validate_inputs tasks envelope selected = do
    caps ← caps_of envelope
    raise_when (not (is_nil (envelope_errors envelope)))
        (PhysicalError.invalid_envelope (envelope_errors envelope))
    let chosen = map (λ e. e.0) selected
    let unknown = difference chosen (λ t. contains t (by_id tasks))
    raise_when (not (is_nil unknown)) (PhysicalError.unknown_tasks (sorted unknown))
    protected ← protected_task_ids tasks
    let omitted = difference protected (λ t. contains t selected)
    raise_when (not (is_nil omitted)) (PhysicalError.omits_protected (sorted omitted))
    check_dependencies (by_id tasks) selected chosen
    selection ← select_all (by_id tasks) selected (sorted chosen)
    checked_graph (validate_graph tasks)
    ok (caps, selection)
