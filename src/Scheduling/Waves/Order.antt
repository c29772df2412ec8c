-- ===== src/Scheduling/Waves/Order.antt =====
-- The waves hold each id once, every dependency stands in an earlier wave, and no task waits longer
-- than it has to.
use agent_server_platform.Base.{
  ℕ, ◌≤◌, String, ◌≡◌, refl, true, false, List, [], ◌∷◌, ◌++◌, arith, string_eq, contains, count,
  all, any, length, flatten, All, All-select, All-weaken, All-of_contains, All-intro, subst,
  count-append, contains-append, ◌∙◌,
}
use agent_server_platform.Scheduling.Waves.{
  Outcome, waves, cycle, unfinished, prepend, is_ready, minus, rounds,
}
use agent_server_platform.Scheduling.Waves.Loop.{
  IsOrder, chosen, of_chosen, of_minus, count-chosen-minus, Rule, rounds_ind,
}

-- What holds of the waves, if the loop ends with waves; a cycle claims nothing, and the loop never
-- runs out of rounds.
abbrev pub OnWaves : {A : Type 0} → (List (List A) → Type 0) → Outcome A → Type 0
OnWaves P (waves ws) = P ws
OnWaves P (cycle _) = Unit
OnWaves P unfinished = ⊥

pub OnWaves-weaken :
    {A : Type 0} {P Q : List (List A) → Type 0} (o : Outcome A)
    → ((ws : List (List A)) → P ws → Q ws)
    → OnWaves P o
    → OnWaves Q o
OnWaves-weaken (waves ws) f h = f ws h
OnWaves-weaken (cycle _) f h = tt
OnWaves-weaken unfinished f h = h

module _ (deps : String → List String) where
  -- Each id of a wave has its dependencies in `placed` and the waves before.
  abbrev pub IsOrdered : List String → List (List String) → Type 0
  IsOrdered placed [] = Unit
  IsOrdered placed (w ∷ ws) =
      All (λ sid. is_ready deps placed sid ≡ true) w × IsOrdered (placed ++ w) ws

  -- Each id of a wave depends on one of the wave right before it.
  abbrev pub IsTight : List String → List (List String) → Type 0
  IsTight before [] = Unit
  IsTight before (w ∷ ws) = All (λ sid. any (contains before) (deps sid) ≡ true) w × IsTight w ws

  -- The same from the second wave on.
  abbrev pub Later : List (List String) → Type 0
  Later [] = Unit
  Later (w ∷ ws) = IsTight w ws

  newly_ready :
      (base before ds : List String)
      → all (contains base) ds ≡ false
      → all (contains (base ++ before)) ds ≡ true
      → any (contains before) ds ≡ true
  unfolding all any
  newly_ready base before [] h e = cc
  newly_ready base before (d ∷ ds) h e =
      ground (arith, newly_ready base before ds, contains-append d base before)

module _ (iter : List String → List String) (order : IsOrder iter)
    (deps : String → List String) where
  abbrev Partition : List String → List String → Outcome String → Type 0
  Partition placed remaining =
      OnWaves (λ ws. (a : String) → count a (flatten ws) ≡ count a remaining)

  Partition-rule : Rule iter deps Partition
  unfolding prepend count flatten
  Partition-rule = record { finish = λ placed a. refl; stuck = λ placed sid sids e. tt; round = go }
    where
      go :
          (placed remaining ready : List String) (o : Outcome String)
          → chosen iter (is_ready deps placed) remaining ≡ ready
          → Partition (placed ++ ready) (minus remaining ready) o
          → Partition placed remaining (prepend ready o)
      go placed remaining ready (waves ws) e h = λ a.
          count-append a ready (flatten ws)
          ∙ rw (h a, ← e) (count-chosen-minus iter order (is_ready deps placed) remaining a)
      go placed remaining ready (cycle ids) e h = tt
      go placed remaining ready unfinished e h = h

  -- The waves hold every id as often as it was given.
  pub rounds-Partition :
      (fuel : ℕ) (placed remaining : List String)
      → length remaining ≤ fuel
      → Partition placed remaining (rounds iter deps fuel placed remaining)
  rounds-Partition = rounds_ind iter order deps Partition Partition-rule

  abbrev Ordered : List String → List String → Outcome String → Type 0
  Ordered placed remaining = OnWaves (IsOrdered deps placed)

  Ordered-rule : Rule iter deps Ordered
  unfolding prepend
  Ordered-rule = record { finish = λ placed. tt; stuck = λ placed sid sids e. tt; round = go }
    where
      go :
          (placed remaining ready : List String) (o : Outcome String)
          → chosen iter (is_ready deps placed) remaining ≡ ready
          → Ordered (placed ++ ready) (minus remaining ready) o
          → Ordered placed remaining (prepend ready o)
      go placed remaining ready (waves ws) e h = (
        subst (All (λ sid. is_ready deps placed sid ≡ true)) e (
            All-weaken (chosen iter (is_ready deps placed) remaining) (λ sid p. p.1)
              (All-select (λ sid. Unit {0}) (is_ready deps placed) (iter remaining)
                (All-intro (iter remaining) (λ sid. tt)))),
        h,
      )
      go placed remaining ready (cycle ids) e h = tt
      go placed remaining ready unfinished e h = h

  -- Every dependency of an id of a wave was placed before that wave.
  pub rounds-IsOrdered :
      (fuel : ℕ) (placed remaining : List String)
      → length remaining ≤ fuel
      → Ordered placed remaining (rounds iter deps fuel placed remaining)
  rounds-IsOrdered = rounds_ind iter order deps Ordered Ordered-rule

  abbrev Tight : List String → List String → Outcome String → Type 0
  Tight placed remaining o =
      (base before : List String)
      → placed ≡ base ++ before
      → ((sid : String) → contains remaining sid ≡ true → is_ready deps base sid ≡ false)
      → OnWaves (IsTight deps before) o

  Tight-rule : Rule iter deps Tight
  unfolding prepend
  Tight-rule = record {
    finish = λ placed base before e fresh. tt;
    stuck = λ placed sid sids e base before split fresh. tt;
    round = go;
  }
    where
      go :
          (placed remaining ready : List String) (o : Outcome String)
          → chosen iter (is_ready deps placed) remaining ≡ ready
          → Tight (placed ++ ready) (minus remaining ready) o
          → Tight placed remaining (prepend ready o)
      go placed remaining ready (waves ws) e h base before split fresh = (
        All-of_contains _ ready (λ sid m.
            let (there, now) =
              of_chosen iter order (is_ready deps placed) remaining sid ready e m in
            newly_ready deps base before (deps sid) (fresh sid there)
              (subst (λ r. is_ready deps r sid ≡ true) split now)),
        h placed ready refl
            (λ sid m. (of_minus iter order (is_ready deps placed) remaining sid ready e m).1),
      )
      go placed remaining ready (cycle ids) e h base before split fresh = tt
      go placed remaining ready unfinished e h base before split fresh =
          h placed ready refl
            (λ sid m. (of_minus iter order (is_ready deps placed) remaining sid ready e m).1)

  abbrev Start : List String → List String → Outcome String → Type 0
  Start placed remaining o = OnWaves (Later deps) o × Tight placed remaining o

  Start-rule : Rule iter deps Start
  unfolding prepend
  Start-rule = record {
    finish = λ placed. (tt, Tight-rule.finish placed);
    stuck = λ placed sid sids e. (tt, Tight-rule.stuck placed sid sids e);
    round = go;
  }
    where
      go :
          (placed remaining ready : List String) (o : Outcome String)
          → chosen iter (is_ready deps placed) remaining ≡ ready
          → Start (placed ++ ready) (minus remaining ready) o
          → Start placed remaining (prepend ready o)
      go placed remaining ready (waves ws) e h = (
        h.1 placed ready refl
            (λ sid m. (of_minus iter order (is_ready deps placed) remaining sid ready e m).1),
        Tight-rule.round placed remaining ready (waves ws) e h.1,
      )
      go placed remaining ready (cycle ids) e h =
          (tt, Tight-rule.round placed remaining ready (cycle ids) e h.1)
      go placed remaining ready unfinished e h = absurd h.0

  -- Each id of a wave but the first depends on one of the wave right before it.
  pub rounds-IsTight :
      (fuel : ℕ) (placed remaining : List String)
      → length remaining ≤ fuel
      → OnWaves (Later deps) (rounds iter deps fuel placed remaining)
  rounds-IsTight fuel placed remaining h =
      (rounds_ind iter order deps Start Start-rule fuel placed remaining h).0
