-- ===== src/FlowDefinition/Execution.antt =====
-- The whole of `get_execution_order`, and the steps that are ready.
use agent_server_platform.Base.{
  ℕ, suc, ◌<◌, String, ◌≡◌, refl, sym, subst, ap, ◌∙◌, ◌≢◌, true, not, none, some, List, [], ◌∷◌,
  map, arith, ◌==◌, string_eq, if◌then◌else◌, All, All-weaken, All-contains, contains, count,
  length, length-select-le, Bool-cases, inl, inr, contains-count, ◌⊎◌,
}
use agent_server_platform.Base.Dict.{Dict, lookup, keys, values}
use agent_server_platform.FlowDefinition.{
  FlowStep, FlowDefinition, Visit, ok, visit, visit_all, get_execution_order,
}
use agent_server_platform.FlowDefinition.Good.{
  IsFlow, lookup-step_id, values-lookup, DependsOn, directly, by_way_of, IsOrdered, IsGood,
  bind-IsGood, IsGood-weaken,
}
use agent_server_platform.FlowDefinition.Visits.{missing, IsValid, Extends, Extends-trans}
use agent_server_platform.FlowDefinition.Order.{visit-IsGood}

-- All steps of the flow, each once, and each after those of its dependencies that are steps.
abbrev pub IsExecutionOrder : Dict String FlowStep → Visit → Type 0
IsExecutionOrder steps st =
    All (λ s. count s.step_id (map (λ t. t.step_id) st.result) ≡ 1) (values steps)
    × All (λ s. lookup s.step_id steps ≡ some s) st.result
    × IsOrdered steps [] st.result

length-keys : {V : Type 0} (d : Dict String V) → length (keys d) ≡ length d
unfolding keys
length-keys [] = refl
length-keys ((k, v) ∷ d) = ap suc (length-keys d)

missing_le : (steps : Dict String FlowStep) → missing steps [] < suc (length steps)
unfolding missing
missing_le steps =
    omega (arith, length-select-le (λ k. not (contains [] k)) (keys steps), length-keys steps)

visit_all-IsGood :
    (steps : Dict String FlowStep) (more : List FlowStep) (st : Visit)
    → IsFlow steps
    → All (λ s. lookup s.step_id steps ≡ some s) more
    → st.in_progress ≡ []
    → IsValid steps st
    → IsGood steps
        (λ a. Extends steps st a × All (λ s. contains a.visited s.step_id ≡ true) more)
        (visit_all steps (suc (length steps)) more st)
unfolding visit_all
visit_all-IsGood steps [] st flow found empty valid = ((refl, λ k e. e, λ k e. refl, valid), tt)
visit_all-IsGood steps (s ∷ more) st flow found empty valid =
    bind-IsGood steps _ _ (visit steps (suc (length steps)) s st)
      (visit_all steps (suc (length steps)) more)
      (visit-IsGood steps flow (suc (length steps)) [] (missing_le steps) s st empty found.0 valid
        tt)
      (λ b g.
        IsGood-weaken steps _ _ (visit_all steps (suc (length steps)) more b)
          (λ a k. (Extends-trans steps st b a g.0 k.0, (k.0.1 s.step_id g.1, k.1)))
          (visit_all-IsGood steps more b flow found.1 (g.0.0 ∙ empty) g.0.3))

-- With one level of search more than there are steps, `get_execution_order` ends: either with all the
-- steps of the flow, each once and after those of its dependencies that are steps of the flow, or
-- with an error at a step that depends on itself, directly or by way of others.
pub get_execution_order-IsGood :
    (flow : FlowDefinition)
    → IsFlow flow.steps
    → IsGood flow.steps (IsExecutionOrder flow.steps) (get_execution_order flow)
unfolding get_execution_order count
get_execution_order-IsGood flow h =
    IsGood-weaken flow.steps _ (IsExecutionOrder flow.steps) (get_execution_order flow)
      (λ a g. (
        All-weaken (values flow.steps)
            (λ s e.
              omega
                (arith, g.0.3.0 s.step_id, g.0.3.1 s.step_id, contains-count s.step_id a.visited e))
            g.1,
        g.0.3.3,
        g.0.3.2,
      ))
      (visit_all-IsGood flow.steps (values flow.steps)
        (record { visited = []; in_progress = []; result = [] }) h (values-lookup flow.steps h) refl
        (λ k. refl, λ k. omega arith, tt, tt))

-- How many ids stand before an id.
position : String → List FlowStep → ℕ
position k [] = 0
position k (s ∷ rest) = let p = position k rest in if k == s.step_id then 0 else suc p

-- In an order, a dependency stands before the step, or has been seen.
position-lt :
    (steps : Dict String FlowStep) (seen : List String) (xs : List FlowStep) (a b : String)
    (s : FlowStep)
    → All (λ t. lookup t.step_id steps ≡ some t) xs
    → IsOrdered steps seen xs
    → lookup a steps ≡ some s
    → contains s.depends_on b ≡ true
    → lookup b steps ≢ none
    → 0 < count a (map (λ t. t.step_id) xs)
    → (contains seen b ≡ true) ⊎ (position b xs < position a xs)
unfolding position contains count
position-lt steps seen [] a b s found ordered e m known here = absurd (omega (arith, here))
position-lt steps seen (x ∷ xs) a b s found ordered e m known here =
    elim (string_eq.dec a x.step_id) [
      | yes same ↦
          let eq : x ≡ s = ground (arith, found.0) in
          inl (
            All-contains _ b x.depends_on ordered.0 (ap (λ t. contains t.depends_on b) eq ∙ m)
              known)
      | no differs ↦
          elim (position-lt steps (x.step_id ∷ seen) xs a b s found.1 ordered.1 e m known
            (ground arith)) [
              | inl before ↦ elim (Bool-cases (b == x.step_id)) [
                | inl here ↦ inr (ground (arith, here))
                | inr there ↦ inl (ground (arith, there, before))
              ]
              | inr after ↦ inr (ground (arith, after))
            ]
    ]

All-lookup :
    (P : FlowStep → Type 0) (d : Dict String FlowStep) (k : String) (s : FlowStep)
    → All P (values d)
    → lookup k d ≡ some s
    → P s
unfolding lookup values
All-lookup P [] k s h e = cc
All-lookup P ((j, t) ∷ d) k s h e = elim (string_eq.dec k j) [
  | yes same ↦ let eq : t ≡ s = ground arith in subst P eq h.0
  | no differs ↦ All-lookup P d k s h.1 (ground arith)
]

module _ (steps : Dict String FlowStep) (flow : IsFlow steps) (st : Visit)
    (order : IsExecutionOrder steps st) where
  dependency-before :
      (a b : String) (s : FlowStep)
      → lookup a steps ≡ some s
      → contains s.depends_on b ≡ true
      → lookup b steps ≢ none
      → position b st.result < position a st.result
  dependency-before a b s e m known =
      let once =
        All-lookup (λ s. count s.step_id (map (λ t. t.step_id) st.result) ≡ 1) steps a s order.0
          e in
      let here =
        ap (λ k. count k (map (λ t. t.step_id) st.result)) (sym (lookup-step_id steps a s flow e))
        ∙ once in
      elim (position-lt steps [] st.result a b s order.1 order.2 e m known (omega (arith, here))) [
        | inl seen ↦ absurd (unfold contains in cc seen)
        | inr before ↦ before
      ]

  DependsOn-position :
      (a c : String)
      → DependsOn steps a c
      → lookup c steps ≢ none
      → position c st.result < position a st.result
  DependsOn-position _ _ (directly a b s e m) known = dependency-before a b s e m known
  DependsOn-position _ _ (by_way_of a b c s r e m) known =
      omega
        (arith, dependency-before b c s e m known, DependsOn-position a b r (λ k. cc (sym e ∙ k)))

known_of-DependsOn :
    (steps : Dict String FlowStep) (a c : String) → DependsOn steps a c → lookup a steps ≢ none
known_of-DependsOn steps _ _ (directly a b s e m) k = cc (sym e ∙ k)
known_of-DependsOn steps _ _ (by_way_of a b c s r e m) k = known_of-DependsOn steps a b r k

-- Where `get_execution_order` gives an order, no step of the flow depends on itself, directly or by way
-- of others.
pub get_execution_order-acyclic :
    (flow : FlowDefinition) (st : Visit) (k : String)
    → IsFlow flow.steps
    → get_execution_order flow ≡ ok st
    → ¬ DependsOn flow.steps k k
get_execution_order-acyclic flow st k h e cycle =
    let order =
      subst (IsGood flow.steps (IsExecutionOrder flow.steps)) e
        (get_execution_order-IsGood flow h) in
    absurd (
      omega (
        arith,
        DependsOn-position flow.steps h st order k k cycle
            (known_of-DependsOn flow.steps k k cycle),
      ))
