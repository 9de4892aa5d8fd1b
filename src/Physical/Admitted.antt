-- ===== src/Physical/Admitted.antt =====
-- What the report of an admission says of the selection.
use finite_agent_physics.Prelude.{
  ℕ, ◌≤◌, ◌≡◌, ◌≢◌, refl, sym, ap, ◌∙◌, String, Bool, true, false, ◌&&◌, Option, none, some, List,
  [], ◌∷◌, ◌++◌, map, Dict, All, length, leb, Result, ok, Bool-cases, inl, inr, arith,
  if◌then◌else◌, is_some,
}
use finite_agent_physics.Contracts.Profiles.{Floats, BackendProfile}
use finite_agent_physics.Contracts.Tasks.{TaskContract}
use finite_agent_physics.Contracts.Envelopes.{RunEnvelope}
use finite_agent_physics.Graph.Graphs.{by_id}
use finite_agent_physics.Graph.Walks.{GraphFault}
use finite_agent_physics.Prelude.Results.{>>=-eq-ok}
use finite_agent_physics.Physical.Arithmetic.{int64_max}
use finite_agent_physics.Physical.Amounts.{PhysicalError, Amounts, Caps}
use finite_agent_physics.Physical.Inputs.{Selection, validate_inputs}
use finite_agent_physics.Physical.Paths.{max_of}
use finite_agent_physics.Physical.Analysis.{
  Dimension, PhysicalConstraintCheck, check, within, values_of, additive_total, peak_total,
  additive_dimensions, peak_dimensions, combined_local,
}
use finite_agent_physics.Physical.Report.{
  PathBounds, PhysicalAdmissionStatus, max_rtt, all_checks, path_checks, all_passed, report,
}
use finite_agent_physics.Physical.Signing.{PhysicalAdmissionReport, ContentDigest, analyze}
use finite_agent_physics.Physical.Sums.{bounded, total, safe_sum_lem}
use finite_agent_physics.Physical.Peaks.{Part, peak_total-IsPeak}
use finite_agent_physics.Physical.Ranks.{Chain}
use finite_agent_physics.Physical.PathEnds.{PathEnd}
use finite_agent_physics.Physical.Judged.{IsBounds, AnalyzeEnd, analyze-IsBounds}

and_left : (a b : Bool) → (a && b) ≡ true → a ≡ true
and_left a b e = ground (arith, e)

and_right : (a b : Bool) → (a && b) ≡ true → b ≡ true
and_right a b e = ground (arith, e)

passed-append :
    (xs ys : List PhysicalConstraintCheck)
    → all_passed (xs ++ ys) ≡ true
    → (all_passed xs ≡ true) × (all_passed ys ≡ true)
passed-append [] ys h = (refl, h)
passed-append (x ∷ xs) ys h =
    let (first, last) = passed-append xs ys (and_right x.passed _ h) in
    (both x.passed _ (and_left x.passed _ h) first, last)
  where
    both : (a b : Bool) → a ≡ true → b ≡ true → (a && b) ≡ true
    both a b p q = ground (arith, p, q)

passed_map :
    (f : Dimension → PhysicalConstraintCheck) (ds : List Dimension)
    → all_passed (map f ds) ≡ true
    → All (λ d. (f d).passed ≡ true) ds
passed_map f [] h = tt
passed_map f (d ∷ ds) h = (and_left _ _ h, passed_map f ds (and_right _ _ h))

within_bounded : (n limit : ℕ) → within (bounded n) limit ≡ true → n ≤ limit
unfolding bounded
within_bounded n limit h = elim (Bool-cases (leb n int64_max)) [
  | inl e ↦ ground (arith, rw e at h)
  | inr e ↦ cc (rw e at h)
]

All-map :
    {A : Type 0} (P Q : A → Type 0) → ((a : A) → P a → Q a) → (xs : List A) → All P xs → All Q xs
All-map P Q f [] h = tt
All-map P Q f (x ∷ xs) h = (f x h.0, All-map P Q f xs h.1)

rtt_within : (s : Selection) (n : ℕ) → max_rtt s ≤ n → All (λ e. e.1.network_rtt_ms ≤ n) s
unfolding max_of
rtt_within [] n h = tt
rtt_within (e ∷ s) n h = (omega (arith, h), rtt_within s n (omega (arith, h)))

sum_within :
    (caps : Caps) (selection : Selection) (d : Dimension)
    → (check caps d (additive_total selection d)).passed ≡ true
    → total (values_of d selection) ≤ d.envelope_field caps
unfolding check additive_total
sum_within caps selection d h =
    within_bounded (total (values_of d selection)) (d.envelope_field caps)
      (ap (λ o. within o (d.envelope_field caps)) (sym (safe_sum_lem (values_of d selection))) ∙ h)

peak_within :
    (caps : Caps) (selection : Selection) (d : Dimension)
    → (check caps d (peak_total caps selection d)).passed ≡ true
    → (part : Selection) → Part part selection
    → length part ≤ caps.max_parallelism
    → total (values_of d part) ≤ d.envelope_field caps
unfolding check
peak_within caps selection d h part p few =
    let (n, e, greatest) = peak_total-IsPeak caps selection d in
    let limit =
      within_bounded n (d.envelope_field caps)
        (ap (λ o. within o (d.envelope_field caps)) (sym e) ∙ h) in
    omega (arith, limit, greatest.bounds part p few)

module _ {F : Floats} where
  -- The selection stays within the caps: its sums, any tasks that may run together, each round trip,
  -- and along each chain of dependencies the times of the transfers and round trips.
  pub record Fits (known : Dict (TaskContract F)) (caps : Caps) (selection : Selection)
      : Type 0 where
    pub sums :
        All
          (λ (d : Dimension). total (values_of d selection) ≤ d.envelope_field caps)
          additive_dimensions
    pub peaks :
        All
          (λ (d : Dimension).
            (part : Selection)
            → Part part selection
            → length part ≤ caps.max_parallelism
            → total (values_of d part) ≤ d.envelope_field caps)
          peak_dimensions
    pub trips :
        All (λ (e : String × Amounts). e.1.network_rtt_ms ≤ caps.max_network_rtt_ms) selection
    pub chains :
        (t : String) (n : ℕ)
        → Chain known (combined_local caps selection) t n
        → n ≤ caps.deadline_ms

  chains_within :
      (known : Dict (TaskContract F)) (values : Dict (Option ℕ)) (limit : ℕ) (o : Option ℕ)
      → PathEnd known values (ok o)
      → within o limit ≡ true
      → (t : String) (n : ℕ) → Chain known values t n
      → n ≤ limit
  chains_within known values limit none p h t n c = cc
  chains_within known values limit (some b) p h t n c = from (ok (some b)) p refl
    where
      some_inj :
          {a b : ℕ}
          → (let r : Result GraphFault (Option ℕ) = ok (some a) in r) ≡ ok (some b)
          → a ≡ b
      some_inj e = cc e

      none_ne : {a : ℕ} → (let r : Result GraphFault (Option ℕ) = ok none in r) ≢ ok (some a)
      none_ne e = cc

      from :
          (r : Result GraphFault (Option ℕ)) → PathEnd known values r → r ≡ ok (some b) → n ≤ limit
      from _ (PathEnd.heaviest m all k) e = ground (arith, all t n c, h, some_inj e)
      from _ (PathEnd.undefined x k) e = absurd (none_ne e)
      from _ (PathEnd.overflowed x m d k) e = absurd (none_ne e)

  checks-Fits :
      (tasks : List (TaskContract F)) (envelope : RunEnvelope F)
      (selected : Dict (BackendProfile F)) (caps : Caps) (selection : Selection)
      (bounds : PathBounds)
      → IsBounds tasks envelope selected caps selection bounds
      → all_passed (all_checks caps selection bounds) ≡ true
      → Fits (by_id tasks) caps selection
  unfolding all_checks path_checks check
  checks-Fits tasks envelope selected caps selection bounds b h =
      let sum_check = λ (d : Dimension). check caps d (additive_total selection d) in
      let peak_check = λ (d : Dimension). check caps d (peak_total caps selection d) in
      let (h1, last) =
        passed-append (map sum_check additive_dimensions ++ map peak_check peak_dimensions)
          (path_checks caps selection bounds) h in
      let (h2, h3) =
        passed-append (map sum_check additive_dimensions) (map peak_check peak_dimensions) h1 in
      let trip_ok = leb (max_rtt selection) caps.max_network_rtt_ms in
      let deadline_ok =
        is_some bounds.transport && (within bounds.combined caps.deadline_ms && true) in
      let trip_check : trip_ok ≡ true = and_left trip_ok deadline_ok last in
      let later =
        and_right (is_some bounds.transport) (within bounds.combined caps.deadline_ms && true)
          (and_right trip_ok deadline_ok last) in
      record {
        sums =
            All-map _ _ (sum_within caps selection) additive_dimensions
              (passed_map sum_check additive_dimensions h2);
        peaks =
            All-map _ _ (peak_within caps selection) peak_dimensions
              (passed_map peak_check peak_dimensions h3);
        trips = rtt_within selection caps.max_network_rtt_ms (ground (arith, trip_check));
        chains =
            chains_within (by_id tasks) (combined_local caps selection) caps.deadline_ms
              bounds.combined b.combined
              (and_left (within bounds.combined caps.deadline_ms) true later);
      }

  reported-Fits :
      (D : ContentDigest F) (tasks : List (TaskContract F)) (envelope : RunEnvelope F)
      (selected : Dict (BackendProfile F)) (caps : Caps) (selection : Selection)
      (r : PhysicalAdmissionReport)
      → r.unsigned.status ≡ PhysicalAdmissionStatus.admitted
      → (end : Result PhysicalError PhysicalAdmissionReport)
      → AnalyzeEnd tasks envelope selected caps selection D end
      → end ≡ ok r
      → Fits (by_id tasks) caps selection
  unfolding report
  reported-Fits D tasks envelope selected caps selection r admitted _
        (AnalyzeEnd.reported bounds subject signature b found e good) same =
      checks-Fits tasks envelope selected caps selection bounds b (
        status_checks (all_passed (all_checks caps selection bounds))
          (ap (λ q. q.unsigned.status) (ok_inj same) ∙ admitted))
    where
      ok_inj :
          {a b : PhysicalAdmissionReport}
          → (let q : Result PhysicalError PhysicalAdmissionReport = ok a in q) ≡ ok b
          → a ≡ b
      ok_inj e = cc e

      status_checks :
          (c : Bool)
          → (if c then PhysicalAdmissionStatus.admitted else PhysicalAdmissionStatus.refused)
            ≡ PhysicalAdmissionStatus.admitted
          → c ≡ true
      status_checks true e = refl
      status_checks false e = cc
  reported-Fits D tasks envelope selected caps selection r admitted _ (AnalyzeEnd.no_graph_digest e)
        same =
      cc
  reported-Fits D tasks envelope selected caps selection r admitted _
        (AnalyzeEnd.no_envelope_digest e) same =
      cc
  reported-Fits D tasks envelope selected caps selection r admitted _
        (AnalyzeEnd.no_selection_digest e) same =
      cc
  reported-Fits D tasks envelope selected caps selection r admitted _
        (AnalyzeEnd.no_report_digest bounds subject b found e) same =
      cc
  reported-Fits D tasks envelope selected caps selection r admitted _
        (AnalyzeEnd.bad_report_digest bounds subject signature b found e bad) same =
      cc

  -- Where `analyze` returns a report that admits, the inputs were validated; and with the caps of the
  -- envelope and the amounts of the selected profiles, every additive sum is within its cap, so is
  -- every sum of a peak dimension over any `max_parallelism` or fewer tasks, and every round trip, and
  -- along each chain of dependencies the transfers and round trips end by the deadline.
  pub admitted-Fits :
      (D : ContentDigest F) (tasks : List (TaskContract F)) (envelope : RunEnvelope F)
      (selected : Dict (BackendProfile F)) (r : PhysicalAdmissionReport)
      → analyze D tasks envelope selected ≡ ok r
      → r.unsigned.status ≡ PhysicalAdmissionStatus.admitted
      → (caps : Caps) × (selection : Selection) × (validate_inputs tasks envelope selected
          ≡ ok (caps, selection))
        × Fits (by_id tasks) caps selection
  unfolding analyze
  admitted-Fits D tasks envelope selected r returned admitted =
      let ((caps, selection), validated, h) =
        >>=-eq-ok (validate_inputs tasks envelope selected) _ returned in
      (
        caps,
        selection,
        validated,
        reported-Fits D tasks envelope selected caps selection r admitted _
            (analyze-IsBounds tasks envelope selected caps selection D validated) returned,
      )
