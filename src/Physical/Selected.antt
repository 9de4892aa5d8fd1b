-- ===== src/Physical/Selected.antt =====
-- What `_validate_inputs` has checked of the selection that it returns.
use finite_agent_physics.Prelude.{
  ◌≡◌, refl, sym, ap, ◌∙◌, subst, String, Bool, true, false, not, Option, none, some, List, [], ◌∷◌,
  map, any_of, Dict, lookup, contains, elem, elem-sorted, sorted, ◌=ˢ◌, =ˢ_ne, String-cases, All,
  Result, ok, err, Bool-cases, inl, inr, arith,
}
use finite_agent_physics.Prelude.Results.{raise_when, >>=-eq-ok, raise_when-eq-ok}
use finite_agent_physics.Contracts.Profiles.{Floats, BackendProfile}
use finite_agent_physics.Contracts.Tasks.{TaskContract, is_nil}
use finite_agent_physics.Contracts.Envelopes.{RunEnvelope, envelope_errors}
use finite_agent_physics.Graph.Graphs.{by_id}
use finite_agent_physics.Graph.Walks.{GraphFault, validate_graph}
use finite_agent_physics.Graph.Decided.{DependsOn}
use finite_agent_physics.Physical.Amounts.{
  PhysicalError, Amounts, Caps, caps_of, amounts_of, profile_eq,
}
use finite_agent_physics.Physical.Inputs.{
  Selection, got, checked_graph, difference, protected_task_ids, check_dependencies, select_one,
  select_all, validate_inputs,
}

difference_none :
    (xs : List String) (has : String → Bool)
    → is_nil (difference xs has) ≡ true
    → (x : String) → elem x xs ≡ true
    → has x ≡ true
unfolding difference
difference_none [] has h x e = cc
difference_none (y ∷ xs) has h x e = elim (Bool-cases (has y)) [
  | inr n ↦ cc (rw n at h)
  | inl there ↦ elim (String-cases x y) [
    | inl q ↦ ap has q ∙ there
    | inr k ↦ difference_none xs has (rw there at h) x (rw (=ˢ_ne x y k) at e)
  ]
]

unfoldable pub keys : {A : Type 0} → Dict A → List String
keys d = map (λ e. e.0) d

elem-keys : {A : Type 0} (k : String) (d : Dict A) → elem k (keys d) ≡ contains k d
unfolding lookup keys
elem-keys k [] = refl
elem-keys k ((j, v) ∷ d) = elim (Bool-cases (k =ˢ j)) [
  | inl e ↦ rw e refl
  | inr e ↦ rw e (elem-keys k d)
]

got-eq-ok : {A : Type 0} (e : PhysicalError) (o : Option A) {a : A} → got e o ≡ ok a → o ≡ some a
got-eq-ok e none h = cc
got-eq-ok e (some a) h = cc h

checked_graph-eq-ok : (r : Result GraphFault (Unit {0})) → checked_graph r ≡ ok tt → r ≡ ok tt
checked_graph-eq-ok (ok a) e = refl
checked_graph-eq-ok (err (GraphFault.invalid xs)) e = cc
checked_graph-eq-ok (err (GraphFault.cycle t)) e = cc
checked_graph-eq-ok (err GraphFault.key_error) e = cc
checked_graph-eq-ok (err GraphFault.unordered) e = cc
checked_graph-eq-ok (err GraphFault.no_fuel) e = cc

not-false : (b : Bool) → not b ≡ false → b ≡ true
not-false b e = ground (arith, e)

ok_inj : {A : Type 0} {a b : A} → (let r : Result PhysicalError A = ok a in r) ≡ ok b → a ≡ b
ok_inj e = cc e

module _ {F : Floats} where
  -- The entry of a selected task: its profile is one that the task declares, of at least the least
  -- quality, and the entry has its amounts.
  pub record Declared (known : Dict (TaskContract F)) (selected : Dict (BackendProfile F))
      (t : String) (a : Amounts) : Type 0 where
    pub task : TaskContract F
    pub profile : BackendProfile F
    pub is_task : lookup t known ≡ some task
    pub is_selected : lookup t selected ≡ some profile
    pub declared : any_of (profile_eq profile) task.profiles ≡ true
    pub good_enough : F.less profile.quality task.min_quality ≡ false
    pub amounts : amounts_of t profile ≡ ok a

  dependencies_checked :
      (known : Dict (TaskContract F)) (selected : Dict (BackendProfile F)) (ts : List String)
      → check_dependencies known selected ts ≡ ok tt
      → (d t : String) → elem t ts ≡ true
      → DependsOn known d t
      → contains d selected ≡ true
  unfolding check_dependencies
  dependencies_checked known selected [] h d t e p = cc
  dependencies_checked known selected (x ∷ ts) h d t e p =
      let (c, is_task, h1) = >>=-eq-ok (got PhysicalError.key_error (lookup x known)) _ h in
      let lacking = difference c.dependencies (λ y. contains y selected) in
      let (_, none_lacks, h2) =
        >>=-eq-ok
          (raise_when (not (is_nil lacking)) (PhysicalError.lacks_dependencies x (sorted lacking)))
          _ h1 in
      elim (String-cases t x) [
        | inl q ↦
            let same : p.contract.dependencies ≡ c.dependencies = same_list (
              sym p.found
              ∙ ap (λ y. lookup y known) q
              ∙ got-eq-ok PhysicalError.key_error (lookup x known) is_task) in
            difference_none c.dependencies (λ y. contains y selected)
              (not-false _ (raise_when-eq-ok _ _ none_lacks)) d (ap (elem d) (sym same) ∙ p.listed)
        | inr n ↦ dependencies_checked known selected ts h2 d t (rw (=ˢ_ne t x n) at e) p
      ]
    where
      same_list : {a b : TaskContract F} → some a ≡ some b → a.dependencies ≡ b.dependencies
      same_list e = cc

  selected_one :
      (known : Dict (TaskContract F)) (selected : Dict (BackendProfile F)) (t : String)
      (task : TaskContract F) (profile : BackendProfile F) (a : Amounts)
      → lookup t known ≡ some task
      → lookup t selected ≡ some profile
      → select_one task t profile ≡ ok a
      → Declared known selected t a
  unfolding select_one
  selected_one known selected t task profile a is_task is_selected h =
      let (_, declared, h1) =
        >>=-eq-ok (raise_when (not (any_of (profile_eq profile) task.profiles)) _) _ h in
      let (_, good, h2) = >>=-eq-ok (raise_when (F.less profile.quality task.min_quality) _) _ h1 in
      record {
        task = task;
        profile = profile;
        is_task = is_task;
        is_selected = is_selected;
        declared = not-false _ (raise_when-eq-ok _ _ declared);
        good_enough = raise_when-eq-ok _ _ good;
        amounts = h2;
      }

  selected-All :
      (known : Dict (TaskContract F)) (selected : Dict (BackendProfile F)) (ts : List String)
      (s : Selection)
      → select_all known selected ts ≡ ok s
      → (keys s ≡ ts) × All (λ e. Declared known selected e.0 e.1) s
  unfolding select_all keys
  selected-All known selected [] s h =
      subst (λ s. (keys s ≡ []) × All (λ e. Declared known selected e.0 e.1) s) (ok_inj h)
        (refl, tt)
  selected-All known selected (t ∷ ts) s h =
      let (task, is_task, h1) = >>=-eq-ok (got PhysicalError.key_error (lookup t known)) _ h in
      let (profile, is_selected, h2) =
        >>=-eq-ok (got PhysicalError.key_error (lookup t selected)) _ h1 in
      let (a, one, h3) = >>=-eq-ok (select_one task t profile) _ h2 in
      let (rest, all, h4) = >>=-eq-ok (select_all known selected ts) _ h3 in
      let (listed, each) = selected-All known selected ts rest all in
      subst (λ s. (keys s ≡ t ∷ ts) × All (λ e. Declared known selected e.0 e.1) s) (ok_inj h4)
        (
          ap (λ ks. t ∷ ks) listed,
          (
            selected_one known selected t task profile a (got-eq-ok _ _ is_task)
                (got-eq-ok _ _ is_selected) one,
            each,
          ),
        )

  -- What holds of the caps and of the selection that are given back.
  pub record IsSelection (tasks : List (TaskContract F)) (envelope : RunEnvelope F)
      (selected : Dict (BackendProfile F)) (caps : Caps) (selection : Selection) : Type 0 where
    pub accepted : validate_graph tasks ≡ ok tt
    pub caps_checked : caps_of envelope ≡ ok caps
    pub same_tasks : (t : String) → elem t (keys selection) ≡ contains t selected
    pub all_known : (t : String) → contains t selected ≡ true → contains t (by_id tasks) ≡ true
    pub closed :
        (d t : String)
        → contains t selected ≡ true
        → DependsOn (by_id tasks) d t
        → contains d selected ≡ true
    pub protects :
        (ids : List String) × (protected_task_ids tasks ≡ ok ids)
        × ((t : String) → elem t ids ≡ true → contains t selected ≡ true)
    pub declared : All (λ e. Declared (by_id tasks) selected e.0 e.1) selection

  -- What `_validate_inputs` returns is a selection of the given tasks, whose graph it accepted.
  pub validate_inputs-IsSelection :
      (tasks : List (TaskContract F)) (envelope : RunEnvelope F)
      (selected : Dict (BackendProfile F)) (caps : Caps) (selection : Selection)
      → validate_inputs tasks envelope selected ≡ ok (caps, selection)
      → IsSelection tasks envelope selected caps selection
  unfolding validate_inputs keys
  validate_inputs-IsSelection tasks envelope selected caps selection h =
      let (caps', caps_ok, h1) = >>=-eq-ok (caps_of envelope) _ h in
      let (_, faultless, h2) =
        >>=-eq-ok (raise_when (not (is_nil (envelope_errors envelope))) _) _ h1 in
      let unknown = difference (keys selected) (λ t. contains t (by_id tasks)) in
      let (_, all_known, h3) = >>=-eq-ok (raise_when (not (is_nil unknown)) _) _ h2 in
      let (ids, protects, h4) = >>=-eq-ok (protected_task_ids tasks) _ h3 in
      let omitted = difference ids (λ t. contains t selected) in
      let (_, none_omitted, h5) = >>=-eq-ok (raise_when (not (is_nil omitted)) _) _ h4 in
      let (_, closed, h6) =
        >>=-eq-ok (check_dependencies (by_id tasks) selected (keys selected)) _ h5 in
      let (chosen, all, h7) =
        >>=-eq-ok (select_all (by_id tasks) selected (sorted (keys selected))) _ h6 in
      let (_, accepted, h8) = >>=-eq-ok (checked_graph (validate_graph tasks)) _ h7 in
      let same_pair : (caps', chosen) ≡ (caps, selection) = ok_inj h8 in
      let same_selection : chosen ≡ selection = ap (λ r. r.1) same_pair in
      let (listed, each) =
        selected-All (by_id tasks) selected (sorted (keys selected)) chosen all in
      record {
        accepted = checked_graph-eq-ok (validate_graph tasks) accepted;
        caps_checked = caps_ok ∙ ap (λ r. ok (r.0)) same_pair;
        same_tasks = λ t.
            ap (λ s. elem t (keys s)) (sym same_selection)
            ∙ ap (elem t) listed
            ∙ elem-sorted t (keys selected)
            ∙ elem-keys t selected;
        all_known = λ t e.
            difference_none (keys selected) (λ x. contains x (by_id tasks))
              (not-false _ (raise_when-eq-ok _ _ all_known)) t (elem-keys t selected ∙ e);
        closed = λ d t e p.
            dependencies_checked (by_id tasks) selected (keys selected) closed d t
              (elem-keys t selected ∙ e) p;
        protects = (
          ids,
          protects,
          λ t e.
              difference_none ids (λ x. contains x selected)
                (not-false _ (raise_when-eq-ok _ _ none_omitted)) t e,
        );
        declared = subst (All (λ e. Declared (by_id tasks) selected e.0 e.1)) same_selection each;
      }
