-- ===== src/Physical/Judged.antt =====
-- How `analyze` ends once the inputs are validated.
use finite_agent_physics.Prelude.{
  true, false, err, subst, Option-cases, eq_iff, if◌then◌else◌, ℕ, ◌≡◌, refl, sym, ap, ◌∙◌, String,
  Option, none, some, List, [], ◌∷◌, map, Dict, lookup, contains, elem, ◌=ˢ◌, Result, ok,
  Bool-cases, inl, inr,
}
use finite_agent_physics.Prelude.Results.{◌>>=◌}
use finite_agent_physics.Contracts.Profiles.{Floats, BackendProfile}
use finite_agent_physics.Contracts.Tasks.{TaskContract}
use finite_agent_physics.Contracts.Envelopes.{RunEnvelope}
use finite_agent_physics.Graph.Graphs.{by_id}
use finite_agent_physics.Graph.Walks.{GraphFault}
use finite_agent_physics.Physical.Amounts.{Amounts, Caps}
use finite_agent_physics.Physical.Inputs.{Selection, validate_inputs}
use finite_agent_physics.Physical.Paths.{critical_path}
use finite_agent_physics.Physical.Analysis.{
  transfer, with_rtt, transport_local, rtt_local, combined_local,
}
use finite_agent_physics.Physical.Report.{PathBounds, Subject, path_bounds, report, escaping}
use finite_agent_physics.Physical.Amounts.{PhysicalError}
use finite_agent_physics.Physical.Signing.{
  PhysicalAdmissionReport, ContentDigest, digested, is_digest, material, summary, verify_digest,
  check_signed, sign, analyze,
}
use finite_agent_physics.Physical.PathEnds.{PathEnd, critical_path-PathEnd}
use finite_agent_physics.Physical.Selected.{keys, IsSelection, validate_inputs-IsSelection}

contains-keys :
    (f : String × Amounts → Option ℕ) (k : String) (s : Selection)
    → contains k (map (λ e. (e.0, f e)) s) ≡ elem k (keys s)
unfolding lookup keys
contains-keys f k [] = refl
contains-keys f k ((j, a) ∷ s) = elim (Bool-cases (k =ˢ j)) [
  | inl e ↦ rw e refl
  | inr e ↦ rw e (contains-keys f k s)
]

module _ {F : Floats} where
  -- The bound of a path, as `_critical_path` returns it.
  pub record HasEnd (tasks : List (TaskContract F)) (selection : Selection)
      (values : Dict (Option ℕ)) : Type 0 where
    pub bound : Option ℕ
    pub returned : critical_path tasks (keys selection) values ≡ ok bound
    pub end_of : PathEnd (by_id tasks) values (ok bound)

  has_end :
      (tasks : List (TaskContract F)) (selection : Selection) (values : Dict (Option ℕ))
      (r : Result GraphFault (Option ℕ))
      → critical_path tasks (keys selection) values ≡ r
      → PathEnd (by_id tasks) values r
      → HasEnd tasks selection values
  has_end tasks selection values _ e (PathEnd.heaviest b h k) = record {
    bound = some b;
    returned = e;
    end_of = PathEnd.heaviest b h k;
  }
  has_end tasks selection values _ e (PathEnd.undefined t h) = record {
    bound = none;
    returned = e;
    end_of = PathEnd.undefined t h;
  }
  has_end tasks selection values _ e (PathEnd.overflowed t n c h) = record {
    bound = none;
    returned = e;
    end_of = PathEnd.overflowed t n c h;
  }

  three :
      (tasks : List (TaskContract F)) (caps : Caps) (selection : Selection) (x y z : Option ℕ)
      → critical_path tasks (keys selection) (transport_local caps selection) ≡ ok x
      → critical_path tasks (keys selection) (rtt_local selection) ≡ ok y
      → critical_path tasks (keys selection) (combined_local caps selection) ≡ ok z
      → path_bounds tasks caps selection ≡ ok (record { transport = x; rtt = y; combined = z })
  unfolding path_bounds keys
  three tasks caps selection x y z p q r = rw (p, q, r) refl

  module _ (tasks : List (TaskContract F)) (envelope : RunEnvelope F)
      (selected : Dict (BackendProfile F)) (caps : Caps) (selection : Selection) where
    path-HasEnd :
        IsSelection tasks envelope selected caps selection
        → (f : String × Amounts → Option ℕ)
        → HasEnd tasks selection (map (λ e. (e.0, f e)) selection)
    path-HasEnd s f =
        let values = map (λ e. (e.0, f e)) selection in
        has_end tasks selection values _ refl (
          critical_path-PathEnd tasks (keys selection) values s.accepted
            (λ d t e p. s.same_tasks d ∙ s.closed d t (sym (s.same_tasks t) ∙ e) p)
            (λ t e. s.all_known t (sym (s.same_tasks t) ∙ e)) (λ t. contains-keys f t selection))

    -- The three bounds are those of the heaviest chains.
    pub record IsBounds (bounds : PathBounds) : Type 0 where
      pub transport : PathEnd (by_id tasks) (transport_local caps selection) (ok bounds.transport)
      pub rtt : PathEnd (by_id tasks) (rtt_local selection) (ok bounds.rtt)
      pub combined : PathEnd (by_id tasks) (combined_local caps selection) (ok bounds.combined)

    module _ (D : ContentDigest F) where
      -- A report for which the digests of the inputs were found.
      pub record IsSubject (subject : Subject) : Type 0 where
        pub graph : D.of_graph tasks ≡ some subject.graph_digest
        pub envelope_found : D.of_envelope envelope ≡ some subject.envelope_digest
        pub chosen : D.of_selection (material selection selected) ≡ some subject.selection_digest
        pub named : subject.selected_profiles ≡ summary (material selection selected)

      -- A signed report with the bounds, or what the digests raise.
      pub data AnalyzeEnd : Result PhysicalError PhysicalAdmissionReport → Type 0 where
        reported :
            (bounds : PathBounds) (subject : Subject) (signature : String)
            → IsBounds bounds
            → IsSubject subject
            → D.of_unsigned (report caps selection bounds subject) ≡ some signature
            → is_digest signature ≡ true
            → AnalyzeEnd (
                ok (record {
                  unsigned = report caps selection bounds subject;
                  report_digest = signature;
                }))
        no_graph_digest : D.of_graph tasks ≡ none → AnalyzeEnd (err PhysicalError.unserializable)
        no_envelope_digest :
            D.of_envelope envelope ≡ none → AnalyzeEnd (err PhysicalError.unserializable)
        no_selection_digest :
            D.of_selection (material selection selected) ≡ none
            → AnalyzeEnd (err PhysicalError.unserializable)
        no_report_digest :
            (bounds : PathBounds) (subject : Subject)
            → IsBounds bounds
            → IsSubject subject
            → D.of_unsigned (report caps selection bounds subject) ≡ none
            → AnalyzeEnd (err PhysicalError.unserializable)
        bad_report_digest :
            (bounds : PathBounds) (subject : Subject) (signature : String)
            → IsBounds bounds
            → IsSubject subject
            → D.of_unsigned (report caps selection bounds subject) ≡ some signature
            → is_digest signature ≡ false
            → AnalyzeEnd (err PhysicalError.digest_disagreed)

      check_signed_lem :
          (r : PhysicalAdmissionReport)
          → D.of_unsigned r.unsigned ≡ some r.report_digest
          → check_signed D r
            ≡ (if is_digest r.report_digest then ok r else err PhysicalError.digest_disagreed)
      unfolding check_signed verify_digest
      check_signed_lem r e = elim (Bool-cases (is_digest r.report_digest)) [
        | inl good ↦ rw (good, e, (eq_iff r.report_digest r.report_digest).1 refl) refl
        | inr bad ↦ rw bad refl
      ]

      signed-End :
          (bounds : PathBounds) (subject : Subject) (signature : String)
          → IsBounds bounds
          → IsSubject subject
          → D.of_unsigned (report caps selection bounds subject) ≡ some signature
          → AnalyzeEnd (
              check_signed D (record {
                unsigned = report caps selection bounds subject;
                report_digest = signature;
              }))
      signed-End bounds subject signature b found e =
          let r : PhysicalAdmissionReport = record {
            unsigned = report caps selection bounds subject;
            report_digest = signature;
          } in
          subst AnalyzeEnd (sym (check_signed_lem r e)) (elim (Bool-cases (is_digest signature)) [
            | inl good ↦ rw good (AnalyzeEnd.reported bounds subject signature b found e good)
            | inr bad ↦ rw bad (AnalyzeEnd.bad_report_digest bounds subject signature b found e bad)
          ])

      finish-End :
          (bounds : PathBounds) (subject : Subject)
          → IsBounds bounds
          → IsSubject subject
          → AnalyzeEnd (
              digested (D.of_unsigned (report caps selection bounds subject)) >>= λ signature.
              check_signed D (record {
                unsigned = report caps selection bounds subject;
                report_digest = signature;
              }))
      finish-End bounds subject b found =
          elim (Option-cases (D.of_unsigned (report caps selection bounds subject))) [
            | inl e ↦ rw e (AnalyzeEnd.no_report_digest bounds subject b found e)
            | inr (signature, e) ↦ rw e (signed-End bounds subject signature b found e)
          ]

      sign-End :
          (bounds : PathBounds)
          → IsBounds bounds
          → AnalyzeEnd (sign D tasks envelope selected caps selection bounds)
      unfolding sign
      sign-End bounds b = elim (Option-cases (D.of_graph tasks)) [
        | inl e ↦ rw e (AnalyzeEnd.no_graph_digest e)
        | inr (graph, e1) ↦ elim (Option-cases (D.of_envelope envelope)) [
          | inl e ↦ rw (e1, e) (AnalyzeEnd.no_envelope_digest e)
          | inr (run, e2) ↦ elim (Option-cases (D.of_selection (material selection selected))) [
            | inl e ↦ rw (e1, e2, e) (AnalyzeEnd.no_selection_digest e)
            | inr (chosen, e3) ↦
                let subject : Subject = record {
                  graph_digest = graph;
                  envelope_digest = run;
                  selection_digest = chosen;
                  selected_profiles = summary (material selection selected);
                } in
                let found : IsSubject subject = record {
                  graph = e1;
                  envelope_found = e2;
                  chosen = e3;
                  named = refl;
                } in
                rw (e1, e2, e3) (finish-End bounds subject b found)
          ]
        ]
      ]

      -- Once the inputs are validated, `analyze` returns a report or raises what the digests cause.
      -- The report has the caps and the amounts of the inputs, their digests, and a digest of its
      -- own in 64 hexadecimal digits; and its three path bounds are those of the heaviest chains of
      -- dependencies, by the time of their transfers, by their round trips and by both. It raises
      -- only where content_digest raises for the graph, the envelope, the selection or the report,
      -- or where the report's digest is not in 64 hexadecimal digits.
      pub analyze-IsBounds :
          validate_inputs tasks envelope selected ≡ ok (caps, selection)
          → AnalyzeEnd (analyze D tasks envelope selected)
      unfolding analyze
      analyze-IsBounds validated =
          let s = validate_inputs-IsSelection tasks envelope selected caps selection validated in
          let transport = path-HasEnd s (λ e. (transfer caps e.1).0) in
          let rtt = path-HasEnd s (λ e. some e.1.network_rtt_ms) in
          let combined = path-HasEnd s (λ e. with_rtt (transfer caps e.1).0 e.1.network_rtt_ms) in
          let bounds : PathBounds = record {
            transport = transport.bound;
            rtt = rtt.bound;
            combined = combined.bound;
          } in
          let same =
            ap
              (λ i. i >>= λ inputs. escaping (path_bounds tasks inputs.0 inputs.1) >>= λ b.
                sign D tasks envelope selected inputs.0 inputs.1 b)
              validated
            ∙ ap (λ r. escaping r >>= λ b. sign D tasks envelope selected caps selection b)
                (three tasks caps selection _ _ _ transport.returned rtt.returned
                  combined.returned) in
          subst AnalyzeEnd (sym same) (
            sign-End bounds (record {
              transport = transport.end_of;
              rtt = rtt.end_of;
              combined = combined.end_of;
            }))
