-- ===== src/FlowDefinition/Visits.antt =====
-- What `visit` keeps: the stack, the visited steps, the order of the result, and its fuel.
use agent_server_platform.Base.{
  ℕ, ◌≤◌, ◌<◌, String, ◌≡◌, refl, ap, ◌∙◌, Bool, true, false, not, some, List, [], ◌∷◌, map, arith,
  ◌==◌, string_eq, All, contains, count, select, length,
}
use agent_server_platform.Base.Dict.{Dict, lookup, keys}
use agent_server_platform.FlowDefinition.{FlowStep, Visit}
use agent_server_platform.FlowDefinition.Good.{DependsOn, IsOrdered}

-- A narrower test that drops a member that the wider one keeps.
length-select_mono :
    {A : Type 0} (p q : A → Bool) (xs : List A)
    → ((x : A) → q x ≡ true → p x ≡ true)
    → length (select q xs) ≤ length (select p xs)
unfolding select
length-select_mono p q [] h = omega arith
length-select_mono p q (x ∷ xs) h = ground (arith, h x, length-select_mono p q xs h)

length-select-drop :
    (p q : String → Bool) (a : String) (xs : List String)
    → ((x : String) → q x ≡ true → p x ≡ true)
    → p a ≡ true
    → q a ≡ false
    → contains xs a ≡ true
    → length (select q xs) < length (select p xs)
unfolding select contains
length-select-drop p q a [] h kept dropped c = cc
length-select-drop p q a (x ∷ xs) h kept dropped c =
    ground (arith, h x, length-select_mono p q xs h, length-select-drop p q a xs h kept dropped)

contains-keys :
    (k : String) (d : Dict String FlowStep) (s : FlowStep)
    → lookup k d ≡ some s
    → contains (keys d) k ≡ true
unfolding lookup keys contains
contains-keys k [] s e = cc
contains-keys k ((j, t) ∷ d) s e = ground (arith, contains-keys k d s)

pub select_absent :
    (k : String) (xs : List String) → contains xs k ≡ false → select (λ a. not (a == k)) xs ≡ xs
unfolding select contains
select_absent k [] h = refl
select_absent k (x ∷ xs) h = ground (arith, select_absent k xs)

-- The steps that are not on the stack.
unfoldable pub missing : Dict String FlowStep → List String → ℕ
missing steps stack = length (select (λ k. not (contains stack k)) (keys steps))

pub missing_enter :
    (steps : Dict String FlowStep) (stack : List String) (k : String) (s : FlowStep)
    → lookup k steps ≡ some s
    → contains stack k ≡ false
    → missing steps (k ∷ stack) < missing steps stack
unfolding missing contains
missing_enter steps stack k s e c =
    length-select-drop (λ a. not (contains stack a)) (λ a. not (contains (k ∷ stack) a)) k
      (keys steps) (λ x q. ground (arith, q)) (ground (arith, c)) (ground arith)
      (contains-keys k steps s e)

-- The result has the visited steps, each once, after their dependencies.
abbrev pub IsValid : Dict String FlowStep → Visit → Type 0
IsValid steps st =
    ((k : String) → count k st.visited ≡ count k (map (λ s. s.step_id) st.result))
    × ((k : String) → count k st.visited ≤ 1)
    × IsOrdered steps [] st.result
    × All (λ s. lookup s.step_id steps ≡ some s) st.result

-- What a call of `visit` does to the state: the stack is as before, visited steps stay, and no step of
-- the stack becomes one.
abbrev pub Extends : Dict String FlowStep → Visit → Visit → Type 0
Extends steps st after =
    (after.in_progress ≡ st.in_progress)
    × ((k : String) → contains st.visited k ≡ true → contains after.visited k ≡ true)
    × ((k : String)
        → contains st.in_progress k ≡ true
        → contains after.visited k ≡ contains st.visited k)
    × IsValid steps after

-- Each step of the stack depends on the step.
abbrev pub IsBelow : Dict String FlowStep → List String → String → Type 0
IsBelow steps stack d = All (λ k. DependsOn steps k d) stack

pub Extends-trans :
    (steps : Dict String FlowStep) (a b c : Visit)
    → Extends steps a b
    → Extends steps b c
    → Extends steps a c
Extends-trans steps a b c h k = (
  k.0 ∙ h.0,
  λ x e. k.1 x (h.1 x e),
  λ x e. k.2 x (ap (λ s. contains s x) h.0 ∙ e) ∙ h.2 x e,
  k.3,
)
