-- ===== src/Scheduling/Waves/Loop.antt =====
-- One round of the loop of `_build_waves`: the ready ids leave `remaining`, and none is lost.
use agent_server_platform.Base.{
  ℕ, zero, suc, ◌+◌, ◌≤◌, ◌<◌, String, ◌≡◌, refl, ap, inl, inr, Bool, true, false, not, ◌&&◌, List,
  [], ◌∷◌, ◌++◌, arith, string_eq, contains, count, select, length, count-select, contains-count,
  count-contains, contains-select, count_zero_of_not-contains, length-select-lt, Bool-cases,
  not-contains_of_count_zero,
}
use agent_server_platform.Scheduling.Waves.{Outcome, waves, cycle, prepend, is_ready, minus, rounds}

-- What is used of the interpreter's order: a set's elements, each as often as it is there.
abbrev pub IsOrder : (List String → List String) → Type 0
IsOrder iter = (a : String) (xs : List String) → count a (iter xs) ≡ count a xs

pub contains-eq_of_count :
    (a : String) (xs ys : List String) → count a xs ≡ count a ys → contains xs a ≡ contains ys a
contains-eq_of_count a xs ys h = elim (Bool-cases (contains xs a)) [
  | inl e ↦ rw (e, count-contains a ys (omega (arith, contains-count a xs e)))
  | inr e ↦
      rw (e, not-contains_of_count_zero a ys (omega (arith, h, count_zero_of_not-contains a xs e)))
]

-- The ids that a round picks.
abbrev pub chosen : (List String → List String) → (String → Bool) → List String → List String
chosen iter p remaining = select p (iter remaining)

module _ (iter : List String → List String) (order : IsOrder iter) (p : String → Bool)
    (remaining : List String) where
  abbrev ready : List String
  ready = chosen iter p remaining

  pub contains-chosen : (a : String) → contains ready a ≡ (contains remaining a && p a)
  contains-chosen a =
      rw (contains-select, contains-eq_of_count a (iter remaining) remaining (order a remaining))

  -- The ready ids and the others make up `remaining`.
  pub count-chosen-minus :
      (a : String) → count a ready + count a (minus remaining ready) ≡ count a remaining
  count-chosen-minus a = ground (
    arith,
    count-select a p (iter remaining),
    order a remaining,
    count-select a (λ sid. not (contains ready sid)) remaining,
    contains-chosen a,
    count_zero_of_not-contains a remaining,
  )

  pub contains-minus :
      (a : String) → contains (minus remaining ready) a ≡ (contains remaining a && not (p a))
  contains-minus a =
      ground
        (arith, contains-select a (λ sid. not (contains ready sid)) remaining, contains-chosen a)

  length-minus-chosen :
      (first : String) (more : List String)
      → ready ≡ first ∷ more
      → length (minus remaining ready) < length remaining
  unfolding contains
  length-minus-chosen first more e =
      let here : contains ready first ≡ true = rw e (ground arith) in
      length-select-lt (λ sid. not (contains ready sid)) first remaining
        (ground (arith, contains-chosen first, here)) (rw here)

module _ (iter : List String → List String) (order : IsOrder iter) (p : String → Bool)
    (remaining : List String) where
  pub of_chosen :
      (sid : String) (ready : List String)
      → chosen iter p remaining ≡ ready
      → contains ready sid ≡ true
      → (contains remaining sid ≡ true) × (p sid ≡ true)
  of_chosen sid ready e m =
      ground (arith, contains-chosen iter order p remaining sid, ap (λ r. contains r sid) e)

  pub of_minus :
      (sid : String) (ready : List String)
      → chosen iter p remaining ≡ ready
      → contains (minus remaining ready) sid ≡ true
      → (contains remaining sid ≡ true) × (p sid ≡ false)
  of_minus sid ready e m = ground (
    arith,
    contains-minus iter order p remaining sid,
    ap (λ r. contains (minus remaining r) sid) e,
  )

-- A proof rule for the loop: what holds of a finished, of a stuck and of a round's outcome holds of
-- the loop's, as long as it is given a round for each id.
pub record Rule (iter : List String → List String) (deps : String → List String)
    (Q : List String → List String → Outcome String → Type 0) : Type 0 where
  pub finish : (placed : List String) → Q placed [] (waves [])
  pub stuck :
      (placed : List String) (sid : String) (sids : List String)
      → chosen iter (is_ready deps placed) (sid ∷ sids) ≡ []
      → Q placed (sid ∷ sids) (cycle (sid ∷ sids))
  pub round :
      (placed remaining ready : List String) (o : Outcome String)
      → chosen iter (is_ready deps placed) remaining ≡ ready
      → Q (placed ++ ready) (minus remaining ready) o
      → Q placed remaining (prepend ready o)

pub rounds_ind :
    (iter : List String → List String) (order : IsOrder iter) (deps : String → List String)
    (Q : List String → List String → Outcome String → Type 0)
    → Rule iter deps Q
    → (fuel : ℕ) (placed remaining : List String) → length remaining ≤ fuel
    → Q placed remaining (rounds iter deps fuel placed remaining)
unfolding rounds
rounds_ind iter order deps Q rule fuel placed [] h = rule.finish placed
rounds_ind iter order deps Q rule zero placed (sid ∷ sids) h = absurd (omega arith)
rounds_ind iter order deps Q rule (suc fuel) placed (sid ∷ sids) h =
    go (chosen iter (is_ready deps placed) (sid ∷ sids)) refl (λ ready less.
      rounds_ind iter order deps Q rule fuel (placed ++ ready) (minus (sid ∷ sids) ready) less)
  where
    go :
        (ready : List String)
        → chosen iter (is_ready deps placed) (sid ∷ sids) ≡ ready
        → ((ready : List String)
            → length (minus (sid ∷ sids) ready) ≤ fuel
            → Q
                (placed ++ ready)
                (minus (sid ∷ sids) ready)
                (rounds iter deps fuel (placed ++ ready) (minus (sid ∷ sids) ready)))
        → Q placed (sid ∷ sids) (elim ready [
          | [] ↦ cycle (sid ∷ sids)
          | first ∷ more ↦
              prepend
                (first ∷ more)
                (rounds iter deps fuel (placed ++ first ∷ more) (minus (sid ∷ sids) (first ∷ more)))
        ])
    go [] e rest = rule.stuck placed sid sids e
    go (first ∷ more) e rest = rule.round placed (sid ∷ sids) (first ∷ more) _ e (
        rest (first ∷ more) (
          omega (
            arith,
            ap (λ r. length (minus (sid ∷ sids) r)) e,
            length-minus-chosen iter order (is_ready deps placed) (sid ∷ sids) first more e,
          )))
