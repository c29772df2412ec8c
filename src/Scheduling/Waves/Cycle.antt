-- ===== src/Scheduling/Waves/Cycle.antt =====
-- What a reported cycle says: each id of it waits for another one of it.
use agent_server_platform.Base.{
  ℕ, zero, suc, ◌≤◌, ◌<◌, String, ◌≡◌, refl, ◌≢◌, Bool, true, false, ◌||◌, List, [], ◌∷◌, ◌++◌,
  arith, string_eq, contains, all, any, length, All, All-of_contains, All-contains, ap, Bool-cases,
  inl, inr, contains-append,
}
use agent_server_platform.Scheduling.Waves.{
  Outcome, waves, cycle, unfinished, prepend, is_ready, minus, rounds,
}
use agent_server_platform.Scheduling.Waves.Loop.{
  IsOrder, chosen, contains-chosen, contains-minus, Rule, rounds_ind,
}

abbrev pub OnCycle : {A : Type 0} → (List String → Type 0) → Outcome A → Type 0
OnCycle P (waves _) = Unit
OnCycle P (cycle ids) = P ids
OnCycle P unfinished = Unit

module _ (deps : String → List String) where
  -- Not empty, and each id has a dependency among them.
  abbrev pub IsStuck : List String → Type 0
  IsStuck ids = (ids ≢ []) × All (λ sid. any (contains ids) (deps sid) ≡ true) ids

  -- Every dependency of what is left is placed or left too.
  abbrev pub IsClosed : List String → List String → Type 0
  IsClosed placed remaining =
      (sid d : String)
      → contains remaining sid ≡ true
      → contains (deps sid) d ≡ true
      → (contains placed d || contains remaining d) ≡ true

any-rest :
    (placed ids ds : List String)
    → all (contains placed) ds ≡ false
    → ((d : String) → contains ds d ≡ true → (contains placed d || contains ids d) ≡ true)
    → any (contains ids) ds ≡ true
unfolding all any contains
any-rest placed ids [] h closed = cc
any-rest placed ids (d ∷ ds) h closed = ground (
  arith,
  closed d (ground arith),
  any-rest placed ids ds,
  λ (x : String) (m : contains ds x ≡ true). closed x (ground (arith, m)),
)

-- A true `any` has a witness.
pub any-found :
    (p : String → Bool) (ds : List String)
    → any p ds ≡ true
    → (d : String) × (contains ds d ≡ true) × (p d ≡ true)
unfolding any contains
any-found p [] h = cc
any-found p (d ∷ ds) h = elim (Bool-cases (p d)) [
  | inl e ↦ (d, ground arith, e)
  | inr e ↦ let (x, m, q) = any-found p ds (ground arith) in (x, ground (arith, m), q)
]

module _ (iter : List String → List String) (order : IsOrder iter)
    (deps : String → List String) where
  abbrev Stuck : List String → List String → Outcome String → Type 0
  Stuck placed remaining o = IsClosed deps placed remaining → OnCycle (IsStuck deps) o

  waits :
      (placed remaining : List String) (a : String)
      → chosen iter (is_ready deps placed) remaining ≡ []
      → contains remaining a ≡ true
      → is_ready deps placed a ≡ false
  unfolding contains
  waits placed remaining a e m = ground (
    arith,
    contains-chosen iter order (is_ready deps placed) remaining a,
    ap (λ r. contains r a) e,
  )

  next :
      (placed remaining ready : List String)
      → chosen iter (is_ready deps placed) remaining ≡ ready
      → IsClosed deps placed remaining
      → IsClosed deps (placed ++ ready) (minus remaining ready)
  next placed remaining ready e closed sid d m n = ground (
    arith,
    closed sid d,
    contains-append d placed ready,
    ap (λ r. contains r d) e,
    ap (λ r. contains (minus remaining r) sid) e,
    ap (λ r. contains (minus remaining r) d) e,
    contains-chosen iter order (is_ready deps placed) remaining d,
    contains-minus iter order (is_ready deps placed) remaining d,
    contains-minus iter order (is_ready deps placed) remaining sid,
  )

  Stuck-rule : Rule iter deps Stuck
  unfolding prepend
  Stuck-rule = record {
    finish = λ placed closed. tt;
    stuck = λ placed sid sids e closed. (
      λ h. cc,
      All-of_contains _ (sid ∷ sids) (λ a m.
          any-rest placed (sid ∷ sids) (deps a) (waits placed (sid ∷ sids) a e m)
            (λ d. closed a d m)),
    );
    round = go;
  }
    where
      go :
          (placed remaining ready : List String) (o : Outcome String)
          → chosen iter (is_ready deps placed) remaining ≡ ready
          → Stuck (placed ++ ready) (minus remaining ready) o
          → Stuck placed remaining (prepend ready o)
      go placed remaining ready (waves ws) e h closed = tt
      go placed remaining ready (cycle ids) e h closed = h (next placed remaining ready e closed)
      go placed remaining ready unfinished e h closed = tt

  -- A reported cycle is one: each of its ids depends on one of them.
  pub rounds-IsStuck :
      (fuel : ℕ) (placed remaining : List String)
      → length remaining ≤ fuel
      → IsClosed deps placed remaining
      → OnCycle (IsStuck deps) (rounds iter deps fuel placed remaining)
  rounds-IsStuck = rounds_ind iter order deps Stuck Stuck-rule

descend :
    (deps : String → List String) (rank : String → ℕ)
    → ((sid d : String) → contains (deps sid) d ≡ true → rank d < rank sid)
    → (ids : List String) → All (λ sid. any (contains ids) (deps sid) ≡ true) ids
    → (n : ℕ) (sid : String) → rank sid ≤ n
    → contains ids sid ≡ true
    → ⊥
descend deps rank grows ids each zero sid le m =
    let (d, here, there) = any-found (contains ids) (deps sid) (All-contains _ sid ids each m) in
    absurd (omega (arith, grows sid d here))
descend deps rank grows ids each (suc n) sid le m =
    let (d, here, there) = any-found (contains ids) (deps sid) (All-contains _ sid ids each m) in
    descend deps rank grows ids each n d (omega (arith, grows sid d here)) there

-- Numbers that grow along the dependencies rule a cycle out.
pub not-IsStuck :
    (deps : String → List String) (rank : String → ℕ)
    → ((sid d : String) → contains (deps sid) d ≡ true → rank d < rank sid)
    → (ids : List String) → ¬ IsStuck deps ids
unfolding contains
not-IsStuck deps rank grows [] h = h.0 refl
not-IsStuck deps rank grows (first ∷ more) h =
    descend deps rank grows (first ∷ more) h.1 (rank first) first (omega arith) (ground arith)
