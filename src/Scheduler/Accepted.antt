-- ===== src/Scheduler/Accepted.antt =====
-- What the loop relies on in a graph and an envelope that were accepted.
use finite_agent_physics.Prelude.{
  ℕ, ◌+◌, ◌≤◌, ◌≡◌, refl, ap, ◌∙◌, ℤ, is_negative, int_ltb, String, Bool, false, ◌||◌, none, List,
  [], ◌∷◌, map, repeats, elem_by, length, lookup, lookup-nil, lookup-insert, insert, insert_new,
  length-append, Dict, ◌=ˢ◌, =ˢ_refl, =ˢ_ne, selected_none, All, All-map, number, one_if, contains,
  Option-cases, ◌≢◌, String-cases, inl, inr, arith,
}
use finite_agent_physics.Contracts.Profiles.{Floats, BackendProfile, profile_tests, profile_errors}
use finite_agent_physics.Contracts.Tasks.{TaskContract, task_errors}
use finite_agent_physics.Graph.Graphs.{GraphError, dict_into, by_id, errors_of_task, graph_errors}
use finite_agent_physics.Graph.Validated.{append_nil, concat_nil, faultless_tasks}
use finite_agent_physics.Graph.Topological.{if_nil}
use finite_agent_physics.Scheduler.Waiting.{is_named}
use finite_agent_physics.Scheduler.Dispatched.{IsLasting}

map_nil : {A B : Type 0} (f : A → B) (xs : List A) → map f xs ≡ [] → xs ≡ []
map_nil f [] e = refl
map_nil f (x ∷ xs) e = cc

left_false : (a b : Bool) → (a || b) ≡ false → a ≡ false
left_false a b h = ground (arith, h)

right_false : (a b : Bool) → (a || b) ≡ false → b ≡ false
right_false a b h = ground (arith, h)

not_below : (a b : ℤ) → is_negative a ≡ false → int_ltb b a ≡ false → is_negative b ≡ false
not_below (ℤ.pos a) (ℤ.pos b) h k = refl
not_below (ℤ.pos a) (ℤ.negsuc b) h k = cc
not_below (ℤ.negsuc a) b h k = cc

at_most_one : (b : Bool) → one_if b ≤ 1
at_most_one b = ground arith

module _ {F : Floats} where
  faultless-IsLasting : (p : BackendProfile F) → profile_errors p ≡ [] → IsLasting p
  unfolding profile_errors
  faultless-IsLasting p e =
      let durations = (selected_none (profile_tests p) e).1.0 in
      not_below p.duration_ms_p50 p.duration_ms_p95 (left_false _ _ durations)
        (right_false _ _ durations)

  task-IsLasting : (t : TaskContract F) → task_errors t ≡ [] → All IsLasting t.profiles
  unfolding task_errors
  task-IsLasting t e =
      let (unnamed, names) = append_nil _ _ e in
      let (received, outputs) = append_nil _ _ unnamed in
      let (before, inputs) = append_nil _ _ received in
      let (own, profiles) = append_nil _ _ before in
      All-map faultless-IsLasting t.profiles (concat_nil profile_errors t.profiles profiles)

  -- The durations of a graph without errors are not negative.
  pub tasks-IsLasting :
      (tasks : List (TaskContract F))
      → graph_errors tasks ≡ []
      → All (λ t. All IsLasting t.profiles) tasks
  unfolding errors_of_task
  tasks-IsLasting tasks e =
      All-map
        (λ t h. task-IsLasting t (
          map_nil (GraphError.in_contract t.task_id) (task_errors t)
            ((append_nil _ _ (append_nil _ _ h).0).0)))
        tasks (faultless_tasks tasks e)

  unnamed :
      (x : String) (tasks : List (TaskContract F))
      → elem_by (λ a b. a =ˢ b) x (map (λ (t : TaskContract F). t.task_id) tasks) ≡ false
      → number (is_named x) tasks ≡ 0
  unfolding number
  unnamed x [] e = refl
  unnamed x (t ∷ ts) e = ground (arith, unnamed x ts, e)

  unique_names :
      (tasks : List (TaskContract F))
      → repeats (λ a b. a =ˢ b) (map (λ (t : TaskContract F). t.task_id) tasks) ≡ false
      → (x : String) → number (is_named x) tasks ≤ 1
  unfolding number
  unique_names [] e x = omega arith
  unique_names (t ∷ ts) e x = elim (String-cases x t.task_id) [
    | inl p ↦ omega (
      arith,
      ap (λ n. number (is_named n) ts) p,
      unnamed t.task_id ts (left_false _ _ e),
      at_most_one (x =ˢ t.task_id),
    )
    | inr p ↦ omega (arith, ap one_if (=ˢ_ne x t.task_id p), unique_names ts (right_false _ _ e) x)
  ]

  -- The names of a graph without errors are distinct.
  pub distinct_names :
      (tasks : List (TaskContract F))
      → graph_errors tasks ≡ []
      → (x : String) → number (is_named x) tasks ≤ 1
  unfolding graph_errors
  distinct_names tasks e = unique_names tasks (if_nil _ _ _ e)

  pub All-named :
      (tasks : List (TaskContract F)) → All (λ t. 1 ≤ number (is_named t.task_id) tasks) tasks
  unfolding number
  All-named [] = tt
  All-named (t ∷ ts) =
      (rw (=ˢ_refl t.task_id) (omega arith), All-map (λ u h. omega (arith, h)) ts (All-named ts))

  named :
      (t : TaskContract F) (ts : List (TaskContract F)) (n : ℕ)
      → number (is_named t.task_id) (t ∷ ts) + n ≤ 1
      → number (is_named t.task_id) ts ≡ 0
  unfolding number
  named t ts n h = (let h' = rw (=ˢ_refl t.task_id) at h in omega (arith, h'))

  absent :
      (t : TaskContract F) (ts : List (TaskContract F)) (d : Dict (TaskContract F))
      → number (is_named t.task_id) (t ∷ ts) + one_if (contains t.task_id d) ≤ 1
      → lookup t.task_id d ≡ none
  unfolding number
  absent t ts d h =
      let h' = rw (=ˢ_refl t.task_id) at h in
      elim (Option-cases (lookup t.task_id d)) [
        | inl u ↦ u
        | inr (v, found) ↦ absurd (let h'' = rw found at h' in omega (arith, h''))
      ]

  unlike :
      (x : String) (t : TaskContract F) (ts : List (TaskContract F)) (d : Dict (TaskContract F))
      → x ≢ t.task_id
      → number (is_named x) (t ∷ ts) + one_if (contains x d) ≤ 1
      → number (is_named x) ts + one_if (contains x d) ≤ 1
  unfolding number
  unlike x t ts d p h = omega (arith, ap one_if (=ˢ_ne x t.task_id p), h)

  length-dict_into :
      (tasks : List (TaskContract F)) (d : Dict (TaskContract F))
      → ((x : String) → number (is_named x) tasks + one_if (contains x d) ≤ 1)
      → length (dict_into (λ (t : TaskContract F). t.task_id) tasks d) ≡ length tasks + length d
  unfolding number dict_into
  length-dict_into [] d h = omega arith
  length-dict_into (t ∷ ts) d h =
      let grown =
        ap length (insert_new t.task_id t d (absent t ts d (h t.task_id)))
        ∙ length-append d ((t.task_id, t) ∷ []) in
      omega (
        arith,
        length-dict_into ts (insert t.task_id t d) (λ x.
            rw (lookup-insert x t.task_id t d) (elim (String-cases x t.task_id) [
              | inl p ↦ rw (p, =ˢ_refl t.task_id) (omega (arith, named t ts _ (h t.task_id)))
              | inr p ↦ rw (=ˢ_ne x t.task_id p) (unlike x t ts d p (h x))
            ])),
        grown,
      )

  -- The dictionary has each of the tasks.
  pub length-by_id :
      (tasks : List (TaskContract F))
      → graph_errors tasks ≡ []
      → length (by_id tasks) ≡ length tasks
  unfolding by_id
  length-by_id tasks e = omega (
    arith,
    length-dict_into tasks [] (λ x. omega (arith, distinct_names tasks e x, none_found x)),
  )
    where
      none_found : (x : String) → one_if (contains {V = TaskContract F} x []) ≡ 0
      none_found x = rw (lookup-nil {V = TaskContract F} x) refl
