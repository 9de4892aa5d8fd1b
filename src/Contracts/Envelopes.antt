-- ===== src/Contracts/Envelopes.antt =====
-- `RunEnvelope`, with the limit of a provider.
use finite_agent_physics.Prelude.{
  ℤ, is_negative, int_leb, String, Bool, false, not, ◌||◌, Option, none, some, List, [], ◌∷◌, ◌++◌,
  map, any_of, repeats, selected, selected_none, is_empty, ◌=ˢ◌, if◌then◌else◌, lookup, lookup-nil,
  ◌≡◌, ◌≢◌, sym, ◌∙◌, All, Bool-cases, Option-cases, inl, inr, arith,
}
use finite_agent_physics.Contracts.Profiles.{Floats, outside_units}
use finite_agent_physics.Graph.Graphs.{dict_into}
use finite_agent_physics.Graph.Validated.{append_nil, dict_into-All}

pub data EnvelopeError : Type 0 where
  bad_deadline negative_budgets bad_parallelism bad_probability : EnvelopeError
  bad_provider_limit names_repeat bad_physical_caps : EnvelopeError

pub record RunEnvelope (F : Floats) : Type 0 where
  pub deadline_ms : ℤ
  pub max_tokens : ℤ
  pub max_cost_microusd : ℤ
  pub max_context_bytes : ℤ
  pub max_parallelism : ℤ
  pub min_modeled_success_probability : F.Float
  pub provider_limits : List (String × ℤ)
  pub max_cpu_time_ms : ℤ
  pub max_peak_memory_bytes : ℤ
  pub max_peak_vram_bytes : ℤ
  pub max_storage_read_bytes : ℤ
  pub max_storage_write_bytes : ℤ
  pub max_network_ingress_bytes : ℤ
  pub max_network_egress_bytes : ℤ
  pub available_bandwidth_bps : ℤ
  pub max_network_rtt_ms : ℤ
  pub max_egress_cost_microusd : ℤ

abbrev pub physical_caps : {F : Floats} → RunEnvelope F → List ℤ
physical_caps e =
    e.max_cpu_time_ms ∷ e.max_peak_memory_bytes ∷ e.max_peak_vram_bytes ∷ e.max_storage_read_bytes
    ∷ e.max_storage_write_bytes ∷ e.max_network_ingress_bytes ∷ e.max_network_egress_bytes
    ∷ e.available_bandwidth_bps ∷ e.max_network_rtt_ms ∷ e.max_egress_cost_microusd ∷ []

-- The limit that `dict(provider_limits)` has for the provider, or the parallelism.
abbrev pub limit_or : ℤ → Option (String × ℤ) → ℤ
limit_or parallelism none = parallelism
limit_or parallelism (some (name, limit)) = limit

unfoldable pub provider_limit : {F : Floats} → RunEnvelope F → String → ℤ
unfolding dict_into lookup
provider_limit e provider =
    limit_or e.max_parallelism
      (lookup provider (dict_into (λ (l : String × ℤ). l.0) e.provider_limits []))

unfoldable pub limit_errors : List (String × ℤ) → List EnvelopeError
limit_errors [] = []
limit_errors ((provider, limit) ∷ ls) =
    let rest = limit_errors ls in
    if is_empty provider || int_leb limit (ℤ.pos 0)
    then EnvelopeError.bad_provider_limit ∷ rest
    else rest

abbrev pub budget_tests : {F : Floats} → RunEnvelope F → List (Bool × EnvelopeError)
budget_tests {F} e =
    (int_leb e.deadline_ms (ℤ.pos 0), EnvelopeError.bad_deadline)
    ∷ (
      any_of is_negative (e.max_tokens ∷ e.max_cost_microusd ∷ e.max_context_bytes ∷ []),
      EnvelopeError.negative_budgets,
    )
    ∷ (int_leb e.max_parallelism (ℤ.pos 0), EnvelopeError.bad_parallelism)
    ∷ (not (F.in_unit e.min_modeled_success_probability), EnvelopeError.bad_probability)
    ∷ []

-- `RunEnvelope.validate`
unfoldable pub envelope_errors : {F : Floats} → RunEnvelope F → List EnvelopeError
unfolding selected limit_errors
envelope_errors {F} e =
    selected (budget_tests e)
    ++ limit_errors e.provider_limits
    ++ selected (
        (
          repeats (λ a b. a =ˢ b) (map (λ (l : String × ℤ). l.0) e.provider_limits),
          EnvelopeError.names_repeat,
        )
        ∷ (any_of outside_units (physical_caps e), EnvelopeError.bad_physical_caps)
        ∷ [])

abbrev IsPositive : ℤ → Type 0
IsPositive v = int_leb v (ℤ.pos 0) ≡ false

limits-IsPositive : (ls : List (String × ℤ)) → limit_errors ls ≡ [] → All (λ l. IsPositive l.1) ls
unfolding limit_errors
limits-IsPositive [] e = tt
limits-IsPositive ((provider, limit) ∷ ls) e =
    elim (Bool-cases (is_empty provider || int_leb limit (ℤ.pos 0))) [
      | inl bad ↦ cc (rw bad at e)
      | inr good ↦ (right_false _ _ good, limits-IsPositive ls (rw good at e))
    ]
  where
    right_false : (a b : Bool) → (a || b) ≡ false → b ≡ false
    right_false a b h = ground (arith, h)

-- Where the envelope has no errors, the number of concurrent calls that it allows a provider is
-- positive, for every provider, listed or not.
pub provider_limit-IsPositive :
    {F : Floats} (e : RunEnvelope F) (provider : String)
    → envelope_errors e ≡ []
    → int_leb (provider_limit e provider) (ℤ.pos 0) ≡ false
unfolding envelope_errors provider_limit
provider_limit-IsPositive e provider h =
    let (front, caps) = append_nil _ _ h in
    let (budgets, limits) = append_nil _ _ front in
    let tests = selected_none (budget_tests e) budgets in
    elim (Option-cases
      (lookup provider (dict_into (λ (l : String × ℤ). l.0) e.provider_limits []))) [
        | inl u ↦ rw u tests.1.1.0
        | inr (l, found) ↦ rw found (
            dict_into-All (λ (l : String × ℤ). IsPositive l.1) (λ (l : String × ℤ). l.0)
              e.provider_limits [] (limits-IsPositive e.provider_limits limits)
              (λ k v p. absurd (none_ne (sym (lookup-nil k) ∙ p))) provider l found)
      ]
  where
    none_ne : {x : String × ℤ} → none ≢ some x
    none_ne p = cc
