-- ===== src/Physical/Mandatory.antt =====
-- A selection that `_validate_inputs` accepts has all the mandatory work.
use finite_agent_physics.Prelude.{◌≡◌, String, true, List, Dict, contains, elem, Result, ok}
use finite_agent_physics.Contracts.Profiles.{Floats, BackendProfile}
use finite_agent_physics.Contracts.Tasks.{TaskContract}
use finite_agent_physics.Contracts.Envelopes.{RunEnvelope}
use finite_agent_physics.Physical.Amounts.{PhysicalError, Caps}
use finite_agent_physics.Physical.Inputs.{Selection, validate_inputs}
use finite_agent_physics.Physical.Selected.{validate_inputs-IsSelection}
use finite_agent_physics.Physical.Following.{Protects}
use finite_agent_physics.Physical.Protected.{Protected, protected_task_ids-Protected}

module _ {F : Floats} (tasks : List (TaskContract F)) (envelope : RunEnvelope F)
    (selected : Dict (BackendProfile F)) where
  has_all :
      (ids : List String) (t : String) (r : Result PhysicalError (List String))
      → Protected tasks r
      → r ≡ ok ids
      → Protects tasks t
      → elem t ids ≡ true
  has_all ids t _ (Protected.closure found sound all) e p = cc (all t p, e)
  has_all ids t _ (Protected.unknown x p out) e q = cc e

  -- In what `_validate_inputs` accepts every mandatory task is selected, and so is every task that one
  -- of them depends on, directly or through others.
  pub validate_inputs-Protects :
      (caps : Caps) (selection : Selection)
      → validate_inputs tasks envelope selected ≡ ok (caps, selection)
      → (t : String) → Protects tasks t
      → contains t selected ≡ true
  validate_inputs-Protects caps selection validated t p =
      let s = validate_inputs-IsSelection tasks envelope selected caps selection validated in
      let (ids, returned, within) = s.protects in
      within t (has_all ids t _ (protected_task_ids-Protected tasks) returned p)
