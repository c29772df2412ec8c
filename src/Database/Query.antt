-- ===== src/Database/Query.antt =====
-- ORDER BY, as `BaseRepository.find_by_criteria` of
-- src/database/repositories/base_repository.py asks for it.
use agent_server_platform.Base.{
  ℕ, ◌≡◌, refl, Bool, false, List, [], ◌∷◌, Option, none, some, if◌then◌else◌, arith, Eq, ◌==◌,
  count, take, select, head?, All, map, Bool-cases, inl, inr,
}

module _ {R : Type 0} (before : R → R → Bool) where
  unfoldable pub insert_sorted : R → List R → List R
  insert_sorted r [] = r ∷ []
  insert_sorted r (s ∷ rs) = if before s r then s ∷ insert_sorted r rs else r ∷ s ∷ rs

  -- ORDER BY; rows that are equal under the order keep their places.
  unfoldable pub sort_by : List R → List R
  unfolding insert_sorted
  sort_by [] = []
  sort_by (r ∷ rs) = insert_sorted r (sort_by rs)

  All-insert_sorted {κ} :
      (P : R → Type κ) (r : R) (rs : List R) → P r → All P rs → All P (insert_sorted r rs)
  unfolding insert_sorted
  All-insert_sorted P r [] p h = (p, tt)
  All-insert_sorted P r (s ∷ rs) p h = elim (Bool-cases (before s r)) [
    | inl e ↦ rw e (h.0, All-insert_sorted P r rs p h.1)
    | inr e ↦ rw e (p, h)
  ]

  pub All-sort_by {κ} : (P : R → Type κ) (rs : List R) → All P rs → All P (sort_by rs)
  unfolding sort_by
  All-sort_by P [] h = tt
  All-sort_by P (r ∷ rs) h = All-insert_sorted P r (sort_by rs) h.0 (All-sort_by P rs h.1)

  -- An answer without a row has no row behind it.
  pub empty-of-head : (rs : List R) → head? (sort_by rs) ≡ none → rs ≡ []
  unfolding sort_by insert_sorted
  empty-of-head [] h = refl
  empty-of-head (r ∷ rs) h = absurd (go (sort_by rs) h)
    where
      go : (sorted : List R) → head? (insert_sorted r sorted) ≡ none → ⊥
      go [] e = cc
      go (s ∷ rest) e = ground (arith, e)

  module _ {K : Type 0} ⦃e : Eq K⦄ (key : R → K) where
    count-insert_sorted :
        (a : K) (r : R) (rs : List R)
        → count a (map key (insert_sorted r rs)) ≡ count a (map key (r ∷ rs))
    unfolding insert_sorted count
    count-insert_sorted a r [] = refl
    count-insert_sorted a r (s ∷ rs) = ground (arith, count-insert_sorted a r rs)

    -- ORDER BY keeps every key, as often as it stands there.
    pub count-sort_by :
        (a : K) (rs : List R) → count a (map key (sort_by rs)) ≡ count a (map key rs)
    unfolding sort_by count
    count-sort_by a [] = refl
    count-sort_by a (r ∷ rs) =
        ground (arith, count-insert_sorted a r (sort_by rs), count-sort_by a rs)

-- LIMIT, where the caller gives one.
unfoldable pub limited : {R : Type 0} → Option ℕ → List R → List R
limited none rs = rs
limited (some n) rs = take n rs

-- `find_by_criteria(criteria, order_by, limit)`: SELECT * WHERE ... ORDER BY ... LIMIT.
unfoldable pub find_by_criteria :
    {R : Type 0} → (R → Bool) → (R → R → Bool) → Option ℕ → List R → List R
find_by_criteria criteria before limit rows = limited limit (sort_by before (select criteria rows))

-- `column = ?` in a WHERE clause: a NULL equals nothing.
abbrev pub column_is : {A : Type 0} ⦃e : Eq A⦄ → A → Option A → Bool
column_is value none = false
column_is value (some a) = a == value
