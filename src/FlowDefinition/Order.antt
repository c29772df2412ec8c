-- ===== src/FlowDefinition/Order.antt =====
-- `get_execution_order`: with the fuel that it has, the search ends with an order of all the steps or
-- at a step that depends on itself.
use agent_server_platform.Base.{
  ℕ, zero, suc, ◌<◌, String, ◌≡◌, refl, sym, subst, ap, ◌∙◌, ◌≢◌, true, false, none, some, List, [],
  ◌∷◌, ◌++◌, map, arith, string_eq, All, All-weaken, All-contains, All-of_contains, contains, count,
  select, Bool-cases, Option-cases, inl, inr, contains-count, count-contains,
  count_zero_of_not-contains,
}
use agent_server_platform.Base.Dict.{Dict, lookup}
use agent_server_platform.FlowDefinition.{
  FlowStep, Visit, Outcome, ok, enter, leave, visit_deps, visit,
}
use agent_server_platform.FlowDefinition.Good.{
  IsFlow, lookup-step_id, DependsOn, directly, by_way_of, IsOrdered-snoc, IsGood, bind-IsGood,
  IsGood-weaken,
}
use agent_server_platform.FlowDefinition.Visits.{
  select_absent, missing, missing_enter, IsValid, Extends, Extends-trans, IsBelow,
}

count-map-snoc :
    (k : String) (xs : List FlowStep) (s : FlowStep)
    → count k (map (λ t. t.step_id) (xs ++ s ∷ [])) ≡ count k (s.step_id ∷ map (λ t. t.step_id) xs)
unfolding count
count-map-snoc k [] s = refl
count-map-snoc k (x ∷ xs) s = ground (arith, count-map-snoc k xs s)

All-snoc :
    (P : FlowStep → Type 0) (xs : List FlowStep) (s : FlowStep)
    → All P xs
    → P s
    → All P (xs ++ s ∷ [])
All-snoc P [] s h p = (p, tt)
All-snoc P (x ∷ xs) s h p = (h.0, All-snoc P xs s h.1 p)

module _ (steps : Dict String FlowStep) (flow : IsFlow steps) where
  -- The dependencies of a list that are steps have been visited.
  abbrev AreVisited : List String → Visit → Type 0
  AreVisited ds st = All (λ d. lookup d steps ≢ none → contains st.visited d ≡ true) ds

  -- What one call of `visit` on a step that is under the stack is to achieve.
  abbrev Works : (FlowStep → Visit → Outcome) → List String → Type 0
  Works visit_one stack =
      (dep : FlowStep) (st : Visit)
      → st.in_progress ≡ stack
      → lookup dep.step_id steps ≡ some dep
      → IsValid steps st
      → IsBelow steps stack dep.step_id
      → IsGood steps (λ a. Extends steps st a × (contains a.visited dep.step_id ≡ true))
          (visit_one dep st)

  visit_deps-IsGood :
      (visit_one : FlowStep → Visit → Outcome) (stack : List String)
      → Works visit_one stack
      → (ds : List String) (st : Visit) → st.in_progress ≡ stack
      → IsValid steps st
      → All (IsBelow steps stack) ds
      → IsGood steps (λ a. Extends steps st a × AreVisited ds a) (visit_deps steps visit_one ds st)
  unfolding visit_deps
  visit_deps-IsGood one stack h [] st same valid below = ((refl, λ k e. e, λ k e. refl, valid), tt)
  visit_deps-IsGood one stack h (d ∷ ds) st same valid below =
      elim (Option-cases (lookup d steps)) [
        | inl absent ↦
            rw (absent, visit_deps)
              (IsGood-weaken steps _ _ (visit_deps steps one ds st)
                (λ a g. (g.0, ((λ k. absurd (k refl)), g.1)))
                (visit_deps-IsGood one stack h ds st same valid below.1))
        | inr (dep, found) ↦
            let id = lookup-step_id steps d dep flow found in
            rw (found, visit_deps)
              (bind-IsGood steps _ _ (one dep st) (visit_deps steps one ds)
                (h dep st same (ap (λ k. lookup k steps) id ∙ found) valid
                  (subst (IsBelow steps stack) (sym id) below.0))
                (λ b g.
                  IsGood-weaken steps _ _ (visit_deps steps one ds b)
                    (λ a k. (
                      Extends-trans steps st b a g.0 k.0,
                      ((λ _. k.0.1 d (ap (contains b.visited) (sym id) ∙ g.1)), k.1),
                    ))
                    (visit_deps-IsGood one stack h ds b (g.0.0 ∙ same) g.0.3 below.1)))
      ]

  -- The state after a step is left.
  leave-Extends :
      (step : FlowStep) (st after : Visit)
      → lookup step.step_id steps ≡ some step
      → contains st.visited step.step_id ≡ false
      → contains st.in_progress step.step_id ≡ false
      → Extends steps (enter step st) after
      → AreVisited step.depends_on after
      → Extends steps st (leave step after)
  unfolding contains count select
  leave-Extends step st after found fresh off h deps =
      let id = step.step_id in
      let own : contains after.visited id ≡ false = h.2 id (ground arith) ∙ fresh in
      (
        rw h.0 (ground (arith, select_absent id st.in_progress off)),
        λ k e. ground (arith, h.1 k e),
        λ k e. ground (arith, h.2 k (ground (arith, e)), off, e),
        (
          λ k. ground (arith, h.3.0 k) ∙ sym (count-map-snoc k after.result step),
          λ k. ground (arith, h.3.1 k, count_zero_of_not-contains id after.visited own),
          IsOrdered-snoc steps [] after.result step h.3.2 (
              All-weaken step.depends_on
                (λ d seen known.
                  count-contains d (map (λ t. t.step_id) after.result)
                    (omega (arith, h.3.0 d, contains-count d after.visited (seen known))))
                deps),
          All-snoc _ after.result step h.3.3 found,
        ),
      )

  -- The dependencies of a step that is on top of the stack.
  under :
      (stack : List String) (step : FlowStep)
      → lookup step.step_id steps ≡ some step
      → IsBelow steps stack step.step_id
      → All (IsBelow steps (step.step_id ∷ stack)) step.depends_on
  under stack step found below =
      All-of_contains (IsBelow steps (step.step_id ∷ stack)) step.depends_on (λ d m. (
        directly step.step_id d step found m,
        All-weaken stack (λ k r. by_way_of k step.step_id d step r found m) below,
      ))

  -- A step on the stack takes one level of fuel.
  deeper :
      (fuel : ℕ) (stack : List String) (step : FlowStep) (st : Visit)
      → missing steps stack < suc fuel
      → st.in_progress ≡ stack
      → lookup step.step_id steps ≡ some step
      → contains st.in_progress step.step_id ≡ false
      → missing steps (step.step_id ∷ stack) < fuel
  deeper fuel stack step st enough same found off = omega (
    arith,
    enough,
    missing_enter steps stack step.step_id step found
        (ap (λ s. contains s step.step_id) (sym same) ∙ off),
  )

  -- A call of `visit` with more fuel than there are steps off the stack ends well.
  pub visit-IsGood :
      (fuel : ℕ) (stack : List String) → missing steps stack < fuel → Works (visit steps fuel) stack
  unfolding visit
  visit-IsGood zero stack enough step st same found valid below = absurd (omega (arith, enough))
  visit-IsGood (suc fuel) stack enough step st same found valid below =
      elim (Bool-cases (contains st.visited step.step_id)) [
        | inl seen ↦ rw (seen, visit) ((refl, λ k e. e, λ k e. refl, valid), seen)
        | inr fresh ↦ elim (Bool-cases (contains st.in_progress step.step_id)) [
          | inl on ↦
              rw (fresh, on, visit)
                (All-contains (λ k. DependsOn steps k step.step_id) step.step_id st.in_progress
                  (subst (λ s. IsBelow steps s step.step_id) (sym same) below) on)
          | inr off ↦
              rw (fresh, off, visit)
                (bind-IsGood steps
                  (λ a. Extends steps (enter step st) a × AreVisited step.depends_on a) _
                  (visit_deps steps (visit steps fuel) step.depends_on (enter step st))
                  (λ a. ok (leave step a))
                  (visit_deps-IsGood (visit steps fuel) (step.step_id ∷ stack)
                    (visit-IsGood fuel (step.step_id ∷ stack)
                      (deeper fuel stack step st enough same found off))
                    step.depends_on (enter step st) (ap (◌∷◌ step.step_id) same) valid
                    (under stack step found below))
                  (λ a g. (leave-Extends step st a found fresh off g.0 g.1, ground arith)))
        ]
      ]
