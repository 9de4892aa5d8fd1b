-- ===== src/Physical/Signing.antt =====
-- `PhysicalResourceAnalyzer.analyze`, with the digests that sign its report. `content_digest` is a
-- parameter, of which nothing is assumed.
use finite_agent_physics.Prelude.{
  String, Bool, false, not, ◌&&◌, ◌==◌, ◌=ˢ◌, Option, none, some, List, [], ◌∷◌, map, Dict,
  if◌then◌else◌, lookup, any_of, codes, length, Result, ok, err,
}
use finite_agent_physics.Prelude.Results.{◌>>=◌, ◌>>◌, raise_when}
use finite_agent_physics.Contracts.Profiles.{Floats, BackendProfile, is_no_hex}
use finite_agent_physics.Contracts.Tasks.{TaskContract}
use finite_agent_physics.Contracts.Envelopes.{RunEnvelope}
use finite_agent_physics.Physical.Amounts.{PhysicalError, Caps}
use finite_agent_physics.Physical.Inputs.{Selection, validate_inputs}
use finite_agent_physics.Physical.Report.{
  PathBounds, Subject, UnsignedReport, path_bounds, escaping, report,
}

pub record PhysicalAdmissionReport : Type 0 where
  pub unsigned : UnsignedReport
  pub report_digest : String

-- `content_digest` of each kind of value that is signed, and `none` where it raises, as on a value
-- with a number that is not finite.
pub record ContentDigest (F : Floats) : Type 0 where
  pub of_graph : List (TaskContract F) → Option String
  pub of_envelope : RunEnvelope F → Option String
  pub of_selection : List (String × BackendProfile F) → Option String
  pub of_unsigned : UnsignedReport → Option String

abbrev pub digested : Option String → Result PhysicalError String
digested none = err PhysicalError.unserializable
digested (some d) = ok d

-- `_is_digest`
abbrev pub is_digest : String → Bool
is_digest s = (length (codes s) == 64) && not (any_of is_no_hex (codes s))

module _ {F : Floats} where
  abbrev with_profile :
      String
      → Option (BackendProfile F)
      → List (String × BackendProfile F)
      → List (String × BackendProfile F)
  with_profile t none rest = rest
  with_profile t (some p) rest = (t, p) ∷ rest

  -- The selected tasks with their profiles.
  abbrev pub material : Selection → Dict (BackendProfile F) → List (String × BackendProfile F)
  material [] selected = []
  material ((t, a) ∷ rest) selected = with_profile t (lookup t selected) (material rest selected)

  abbrev pub summary : List (String × BackendProfile F) → List (String × String × String)
  summary chosen = map (λ e. (e.0, e.1.provider, e.1.name)) chosen

  unfoldable pub verify_digest :
      ContentDigest F → PhysicalAdmissionReport → Result PhysicalError Bool
  verify_digest D r =
      let again = digested (D.of_unsigned r.unsigned) >>= λ d. ok (r.report_digest =ˢ d) in
      if is_digest r.report_digest then again else ok false

  unfoldable pub check_signed :
      ContentDigest F → PhysicalAdmissionReport → Result PhysicalError PhysicalAdmissionReport
  unfolding verify_digest
  check_signed D r = do
    verified ← verify_digest D r
    raise_when (not verified) PhysicalError.digest_disagreed
    ok r

  unfoldable pub sign :
      ContentDigest F
      → List (TaskContract F)
      → RunEnvelope F
      → Dict (BackendProfile F)
      → Caps
      → Selection
      → PathBounds
      → Result PhysicalError PhysicalAdmissionReport
  unfolding check_signed
  sign D tasks envelope selected caps selection bounds = do
    let chosen = material selection selected
    graph_digest ← digested (D.of_graph tasks)
    envelope_digest ← digested (D.of_envelope envelope)
    selection_digest ← digested (D.of_selection chosen)
    let subject : Subject = record {
      graph_digest = graph_digest;
      envelope_digest = envelope_digest;
      selection_digest = selection_digest;
      selected_profiles = summary chosen;
    }
    let unsigned = report caps selection bounds subject
    report_digest ← digested (D.of_unsigned unsigned)
    check_signed D (record { unsigned = unsigned; report_digest = report_digest })

  unfoldable pub analyze :
      ContentDigest F
      → List (TaskContract F)
      → RunEnvelope F
      → Dict (BackendProfile F)
      → Result PhysicalError PhysicalAdmissionReport
  unfolding validate_inputs path_bounds sign
  analyze D tasks envelope selected = do
    inputs ← validate_inputs tasks envelope selected
    bounds ← escaping (path_bounds tasks inputs.0 inputs.1)
    sign D tasks envelope selected inputs.0 inputs.1 bounds
