-- ===== src/FlowDefinition/Good.antt =====
-- What a flow is, what a dependency is, and what the search keeps.
use agent_server_platform.Base.{
  String, ◌≡◌, refl, ◌∙◌, true, none, some, List, [], ◌∷◌, ◌++◌, map, ◌≢◌, ◌||◌, arith, ◌==◌,
  string_eq, All, All-weaken, contains, Bool-cases, inl, inr,
}
use agent_server_platform.Base.Dict.{Dict, lookup, lookup-insert, insert, values}
use agent_server_platform.FlowDefinition.{
  FlowStep, FlowDefinition, add_step, Visit, Outcome, ok, circular, unfinished, bind,
}

-- Each step stands under its own id, and no id twice.
abbrev pub IsFlow : Dict String FlowStep → Type 0
IsFlow [] = Unit
IsFlow ((k, s) ∷ d) = (s.step_id ≡ k) × (lookup k d ≡ none) × IsFlow d

insert-IsFlow : (s : FlowStep) (d : Dict String FlowStep) → IsFlow d → IsFlow (insert s.step_id s d)
unfolding insert lookup
insert-IsFlow s [] h = (refl, refl, tt)
insert-IsFlow s ((k, t) ∷ d) h = elim (Bool-cases (s.step_id == k)) [
  | inl e ↦ rw e (ground (arith, e), h.1, h.2)
  | inr e ↦
      rw e (h.0, lookup-insert k s.step_id s d ∙ ground (arith, e, h.1), insert-IsFlow s d h.2)
]

pub add_step-IsFlow :
    (s : FlowStep) (flow : FlowDefinition) → IsFlow flow.steps → IsFlow (add_step s flow).steps
unfolding add_step
add_step-IsFlow s flow h = insert-IsFlow s flow.steps h

pub lookup-step_id :
    (d : Dict String FlowStep) (k : String) (s : FlowStep)
    → IsFlow d
    → lookup k d ≡ some s
    → s.step_id ≡ k
unfolding lookup
lookup-step_id [] k s h e = cc
lookup-step_id ((j, t) ∷ d) k s h e = elim (string_eq.dec k j) [
  | yes same ↦ ground (arith, h.0)
  | no differs ↦ lookup-step_id d k s h.2 (ground arith)
]

-- Every step is found under its id.
pub values-lookup :
    (d : Dict String FlowStep) → IsFlow d → All (λ s. lookup s.step_id d ≡ some s) (values d)
unfolding values lookup
values-lookup [] h = tt
values-lookup ((k, t) ∷ d) h = (
  ground (arith, h.0),
  All-weaken (values d) (λ s e. ground (arith, e, h.1)) (values-lookup d h.2),
)

-- `b` is a dependency of `a`, directly or by way of others.
pub data DependsOn (steps : Dict String FlowStep) : String → String → Type 0 where
  directly :
      (a b : String) (s : FlowStep)
      → lookup a steps ≡ some s
      → contains s.depends_on b ≡ true
      → DependsOn steps a b
  by_way_of :
      (a b c : String) (s : FlowStep)
      → DependsOn steps a b
      → lookup b steps ≡ some s
      → contains s.depends_on c ≡ true
      → DependsOn steps a c

-- Each step stands after the dependencies that are steps of the flow.
abbrev pub IsOrdered : Dict String FlowStep → List String → List FlowStep → Type 0
IsOrdered steps seen [] = Unit
IsOrdered steps seen (s ∷ rest) =
    All (λ d. lookup d steps ≢ none → contains seen d ≡ true) s.depends_on
    × IsOrdered steps (s.step_id ∷ seen) rest

pub IsOrdered-snoc :
    (steps : Dict String FlowStep) (seen : List String) (xs : List FlowStep) (s : FlowStep)
    → IsOrdered steps seen xs
    → All
        (λ d.
          lookup d steps ≢ none → (contains seen d || contains (map (λ t. t.step_id) xs) d) ≡ true)
        s.depends_on
    → IsOrdered steps seen (xs ++ s ∷ [])
unfolding contains
IsOrdered-snoc steps seen [] s h a = (All-weaken s.depends_on (λ d f k. ground (arith, f k)) a, tt)
IsOrdered-snoc steps seen (x ∷ xs) s h a = (
  h.0,
  IsOrdered-snoc steps (x.step_id ∷ seen) xs s h.1
      (All-weaken s.depends_on (λ d f k. ground (arith, f k)) a),
)

-- An outcome that ends well: a state with the property, or a step that depends on itself.
abbrev pub IsGood : Dict String FlowStep → (Visit → Type 0) → Outcome → Type 0
IsGood steps P (ok st) = P st
IsGood steps P (circular k) = DependsOn steps k k
IsGood steps P unfinished = ⊥

pub bind-IsGood :
    (steps : Dict String FlowStep) (P Q : Visit → Type 0) (r : Outcome) (f : Visit → Outcome)
    → IsGood steps P r
    → ((st : Visit) → P st → IsGood steps Q (f st))
    → IsGood steps Q (bind r f)
bind-IsGood steps P Q (ok st) f h k = k st h
bind-IsGood steps P Q (circular a) f h k = h
bind-IsGood steps P Q unfinished f h k = absurd h

pub IsGood-weaken :
    (steps : Dict String FlowStep) (P Q : Visit → Type 0) (r : Outcome)
    → ((st : Visit) → P st → Q st)
    → IsGood steps P r
    → IsGood steps Q r
IsGood-weaken steps P Q (ok st) f h = f st h
IsGood-weaken steps P Q (circular a) f h = h
IsGood-weaken steps P Q unfinished f h = h
