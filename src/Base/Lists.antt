-- ===== src/Base/Lists.antt =====
-- Lists measured by native numbers, membership and multiplicity as values that the tactics read.
use Prim.Native.Nat.{ℕ, zero, suc, ◌+◌, ◌≤◌, ◌<◌}
use mathlib.Core.Path.{◌≡◌, refl, sym, subst, ap, ap₂}
use mathlib.Core.Logic.{◌≢◌, inl, inr}
use mathlib.Core.Bool.{Bool, true, false, ◌&&◌, ◌||◌}
use mathlib.Core.List.{List, [], ◌∷◌, ◌++◌, map}
use mathlib.Core.Option.{Option, none, some}
use native.Mathlib.Omega.{arith}
use agent_server_platform.Base.Equality.{Eq, ◌==◌, if◌then◌else◌, Bool-cases}

module _ {ℓ} {A : Type ℓ} where
  abbrev pub length : List A → ℕ
  length [] = 0
  length (x ∷ xs) = suc (length xs)

  abbrev pub head? : List A → Option A
  head? [] = none
  head? (x ∷ xs) = some x

  abbrev pub take : ℕ → List A → List A
  take zero xs = []
  take (suc n) [] = []
  take (suc n) (x ∷ xs) = x ∷ take n xs

  -- `[x for x in xs if p(x)]`
  unfoldable pub select : (A → Bool) → List A → List A
  select p [] = []
  select p (x ∷ xs) = let rest = select p xs in if p x then x ∷ rest else rest

  -- `all(p(x) for x in xs)`
  unfoldable pub all : (A → Bool) → List A → Bool
  all p [] = true
  all p (x ∷ xs) = p x && all p xs

  -- `any(p(x) for x in xs)`
  unfoldable pub any : (A → Bool) → List A → Bool
  any p [] = false
  any p (x ∷ xs) = p x || any p xs

  -- A predicate by recursion, which the tactics read and build.
  abbrev pub All {κ} : (A → Type κ) → List A → Type κ
  All P [] = Unit
  All P (x ∷ xs) = P x × All P xs

  pub All-weaken {κ μ} :
      {P : A → Type κ} {Q : A → Type μ} (xs : List A) → ((x : A) → P x → Q x) → All P xs → All Q xs
  All-weaken [] f h = tt
  All-weaken (x ∷ xs) f h = (f x h.0, All-weaken xs f h.1)

  pub map-same : (f : A → A) (xs : List A) → All (λ x. f x ≡ x) xs → map f xs ≡ xs
  map-same f [] h = refl
  map-same f (x ∷ xs) h = ap₂ ◌∷◌ h.0 (map-same f xs h.1)

  pub All-intro {κ} : {P : A → Type κ} (xs : List A) → ((x : A) → P x) → All P xs
  All-intro [] f = tt
  All-intro (x ∷ xs) f = (f x, All-intro xs f)

  pub All-append {κ} : (P : A → Type κ) (xs ys : List A) → All P (xs ++ ys) → All P xs × All P ys
  All-append P [] ys h = (tt, h)
  All-append P (x ∷ xs) ys h = ((h.0, (All-append P xs ys h.1).0), (All-append P xs ys h.1).1)

  pub All-zip {κ μ} :
      (P : A → Type κ) (Q : A → Type μ) (xs : List A)
      → All P xs
      → All Q xs
      → All (λ x. P x × Q x) xs
  All-zip P Q [] hp hq = tt
  All-zip P Q (x ∷ xs) hp hq = ((hp.0, hq.0), All-zip P Q xs hp.1 hq.1)

  pub All-select {κ} :
      (P : A → Type κ) (p : A → Bool) (xs : List A)
      → All P xs
      → All (λ x. P x × (p x ≡ true)) (select p xs)
  unfolding select
  All-select P p [] h = tt
  All-select P p (x ∷ xs) h = elim (Bool-cases (p x)) [
    | inl e ↦ rw e ((h.0, e), All-select P p xs h.1)
    | inr e ↦ rw e (All-select P p xs h.1)
  ]

  pub map-eq_of_All {κ} :
      {B : Type κ} (f g : A → B) (xs : List A) → All (λ x. f x ≡ g x) xs → map f xs ≡ map g xs
  map-eq_of_All f g [] h = refl
  map-eq_of_All f g (x ∷ xs) h = ap₂ ◌∷◌ h.0 (map-eq_of_All f g xs h.1)

  pub map-map {κ μ} :
      {B : Type κ} {C : Type μ} (f : B → C) (g : A → B) (xs : List A)
      → map f (map g xs) ≡ map (λ x. f (g x)) xs
  map-map f g [] = refl
  map-map f g (x ∷ xs) = ap (◌∷◌ (f (g x))) (map-map f g xs)

  pub length-append : (xs ys : List A) → length (xs ++ ys) ≡ length xs + length ys
  length-append [] ys = omega arith
  length-append (x ∷ xs) ys = omega (arith, length-append xs ys)

  pub select-append :
      (p : A → Bool) (xs ys : List A) → select p (xs ++ ys) ≡ select p xs ++ select p ys
  unfolding select
  select-append p [] ys = refl
  select-append p (x ∷ xs) ys = ground (arith, select-append p xs ys)

  pub length-select-le : (p : A → Bool) (xs : List A) → length (select p xs) ≤ length xs
  unfolding select
  length-select-le p [] = omega arith
  length-select-le p (x ∷ xs) = ground (arith, length-select-le p xs)

module _ {ℓ} {A : Type ℓ} ⦃e : Eq A⦄ where
  -- `x in xs`
  unfoldable pub contains : List A → A → Bool
  contains [] a = false
  contains (x ∷ xs) a = (a == x) || contains xs a

  unfoldable pub count : A → List A → ℕ
  count a [] = 0
  count a (x ∷ xs) = if a == x then suc (count a xs) else count a xs

  pub count-append : (a : A) (xs ys : List A) → count a (xs ++ ys) ≡ count a xs + count a ys
  unfolding count
  count-append a [] ys = omega arith
  count-append a (x ∷ xs) ys = ground (arith, count-append a xs ys)

  pub count-select :
      (a : A) (p : A → Bool) (xs : List A) → count a (select p xs) ≡ (if p a then count a xs else 0)
  unfolding count select
  count-select a p [] = ground arith
  count-select a p (x ∷ xs) = ground (arith, count-select a p xs)

  pub contains-count : (a : A) (xs : List A) → contains xs a ≡ true → 0 < count a xs
  unfolding contains count
  contains-count a [] h = ground arith
  contains-count a (x ∷ xs) h = ground (arith, contains-count a xs)

  pub count-contains : (a : A) (xs : List A) → 0 < count a xs → contains xs a ≡ true
  unfolding contains count
  count-contains a [] h = absurd (omega arith)
  count-contains a (x ∷ xs) h = ground (arith, count-contains a xs)

  pub not-contains_of_count_zero : (a : A) (xs : List A) → count a xs ≡ 0 → contains xs a ≡ false
  unfolding contains count
  not-contains_of_count_zero a [] h = refl
  not-contains_of_count_zero a (x ∷ xs) h = ground (arith, not-contains_of_count_zero a xs)

  pub count_zero_of_not-contains : (a : A) (xs : List A) → contains xs a ≡ false → count a xs ≡ 0
  unfolding contains count
  count_zero_of_not-contains a [] h = refl
  count_zero_of_not-contains a (x ∷ xs) h = ground (arith, count_zero_of_not-contains a xs)

  -- A filter that drops a member makes the list shorter.
  pub length-select-lt :
      (p : A → Bool) (a : A) (xs : List A)
      → contains xs a ≡ true
      → p a ≡ false
      → length (select p xs) < length xs
  unfolding contains select
  length-select-lt p a [] h e = cc
  length-select-lt p a (x ∷ xs) h e = ground (arith, length-select-lt p a xs, length-select-le p xs)

  pub All-contains {κ} :
      (P : A → Type κ) (a : A) (xs : List A) → All P xs → contains xs a ≡ true → P a
  unfolding contains
  All-contains P a [] h m = cc
  All-contains P a (x ∷ xs) h m = elim (e.dec a x) [
    | yes same ↦ subst P (sym same) h.0
    | no differs ↦ All-contains P a xs h.1 (ground arith)
  ]

  pub All-of_contains {κ} :
      (P : A → Type κ) (xs : List A) → ((a : A) → contains xs a ≡ true → P a) → All P xs
  unfolding contains
  All-of_contains P [] f = tt
  All-of_contains P (x ∷ xs) f =
      (f x (ground arith), All-of_contains P xs (λ a m. f a (ground (arith, m))))

  pub contains-append :
      (a : A) (xs ys : List A) → contains (xs ++ ys) a ≡ (contains xs a || contains ys a)
  unfolding contains
  contains-append a [] ys = refl
  contains-append a (x ∷ xs) ys = ground (arith, contains-append a xs ys)

  pub contains-select :
      (a : A) (p : A → Bool) (xs : List A) → contains (select p xs) a ≡ (contains xs a && p a)
  unfolding contains select
  contains-select a p [] = refl
  contains-select a p (x ∷ xs) = ground (arith, contains-select a p xs)

-- How often a key stands among the keys of a list, before and after a filter.
module _ {ℓ κ} {A : Type ℓ} {K : Type κ} ⦃e : Eq K⦄ (key : A → K) where
  pub count-map-select-le :
      (k : K) (p : A → Bool) (xs : List A) → count k (map key (select p xs)) ≤ count k (map key xs)
  unfolding count select
  count-map-select-le k p [] = omega arith
  count-map-select-le k p (x ∷ xs) = ground (arith, count-map-select-le k p xs)

  -- What passes the filter is counted.
  pub select-count :
      (p : A → Bool) (xs : List A)
      → All (λ x. p x ≡ true → 0 < count (key x) (map key (select p xs))) xs
  unfolding count select
  select-count p [] = tt
  select-count p (x ∷ xs) =
      (λ h. ground arith, All-weaken xs (λ y h py. ground (arith, h py)) (select-count p xs))

  pub ne_of_count_zero : (k : K) (xs : List A) → count k (map key xs) ≡ 0 → All (λ x. key x ≢ k) xs
  unfolding count
  ne_of_count_zero k [] h = tt
  ne_of_count_zero k (x ∷ xs) h = (ground arith, ne_of_count_zero k xs (ground arith))

  pub count_zero_of_ne : (k : K) (xs : List A) → All (λ x. key x ≢ k) xs → count k (map key xs) ≡ 0
  unfolding count
  count_zero_of_ne k [] h = refl
  count_zero_of_ne k (x ∷ xs) h = ground (arith, count_zero_of_ne k xs h.1)
