-- ===== src/Database/Table/Sweep.antt =====
-- A loop that runs over the rows of a query and writes to each row by its key.
use agent_server_platform.Base.{
  ◌≤◌, ◌<◌, String, ◌≡◌, refl, sym, ◌∙◌, ◌≢◌, Bool, true, some, List, [], ◌∷◌, map, arith,
  string_eq, if◌then◌else◌, All, All-weaken, All-intro, All-zip, All-select, map-same, map-map,
  map-eq_of_All, select, count, contains, select-count, count-map-select-le, count-contains,
  count_zero_of_ne, ne_of_count_zero, not-contains_of_count_zero, Bool-cases, inl, inr,
}
use agent_server_platform.Database.Query.{sort_by, All-sort_by, count-sort_by}
use agent_server_platform.Database.Table.{Model}
use agent_server_platform.Database.Table.Keyed.{
  Differs, IsKeyed, find, at, KeepsKeys, map-IsKeyed, find-at,
}

module _ {R : Type 0} (m : Model R) where
  pub All-found :
      (rows : List R) → IsKeyed m rows → All (λ t. find m (m.key_of t) rows ≡ some t) rows
  unfolding find
  All-found [] h = tt
  All-found (r ∷ rs) h = (
    ground arith,
    All-weaken rs (λ t d. ground (arith, d.0.1, d.1))
        (All-zip (Differs m r) (λ t. find m (m.key_of t) rs ≡ some t) rs h.0 (All-found rs h.1)),
  )

  IsKeyed-count : (rows : List R) (k : String) → IsKeyed m rows → count k (map m.key_of rows) ≤ 1
  unfolding count
  IsKeyed-count [] k h = omega arith
  IsKeyed-count (r ∷ rs) k h = ground (
    arith,
    IsKeyed-count rs k h.1,
    count_zero_of_ne m.key_of (m.key_of r) rs (All-weaken rs (λ s d. d.1) h.0),
  )

  pub at-KeepsKeys : (k : String) (g : R → R) → KeepsKeys m g → KeepsKeys m (at m k g)
  at-KeepsKeys k g h t = ground (arith, h t)

  -- What a query finds a key for is the row itself.
  holds_of_contains :
      (p : R → Bool) (rows ts : List R) (r : R)
      → All (λ t. (find m (m.key_of t) rows ≡ some t) × (p t ≡ true)) ts
      → find m (m.key_of r) rows ≡ some r
      → contains (map m.key_of ts) (m.key_of r) ≡ true
      → p r ≡ true
  unfolding contains
  holds_of_contains p rows [] r h e c = cc
  holds_of_contains p rows (t ∷ ts) r h e c = elim (string_eq.dec (m.key_of r) (m.key_of t)) [
    | yes same ↦ let eq : some r ≡ some t = ground (arith, h.0.0) in ground (arith, eq, h.0.1)
    | no differs ↦ holds_of_contains p rows ts r h.1 e (ground arith)
  ]

  module _ (step : R → List R → List R) where
    -- `for t in ts: ...`
    unfoldable pub each : List R → List R → List R
    each [] rows = rows
    each (t ∷ ts) rows = each ts (step t rows)

    module _ (g : R → R) (keeps : KeepsKeys m g)
        (writes : (t : R) (rows : List R)
          → IsKeyed m rows
          → find m (m.key_of t) rows ≡ some t
          → step t rows ≡ map (at m (m.key_of t) g) rows) where
      named : List R → R → R
      named ts r = if contains (map m.key_of ts) (m.key_of r) then g r else r

      named-cons :
          (t : R) (ts rows : List R)
          → count (m.key_of t) (map m.key_of ts) ≡ 0
          → map (named ts) (map (at m (m.key_of t) g) rows) ≡ map (named (t ∷ ts)) rows
      unfolding named contains
      named-cons t ts rows absent =
          map-map (named ts) (at m (m.key_of t) g) rows
          ∙ map-eq_of_All (λ r. named ts (at m (m.key_of t) g r)) (named (t ∷ ts)) rows
              (All-intro rows (λ r.
                ground (
                  arith,
                  keeps r,
                  not-contains_of_count_zero (m.key_of t) (map m.key_of ts) absent,
                )))

      each-named :
          (ts rows : List R)
          → IsKeyed m rows
          → All (λ t. find m (m.key_of t) rows ≡ some t) ts
          → ((k : String) → count k (map m.key_of ts) ≤ 1)
          → each ts rows ≡ map (named ts) rows
      unfolding each named contains
      each-named [] rows h found once = sym (map-same (named []) rows (All-intro rows (λ u. refl)))
      each-named (t ∷ ts) rows h found once =
          let absent : count (m.key_of t) (map m.key_of ts) ≡ 0 =
            unfold count in ground (arith, once (m.key_of t)) in
          let rest : (k : String) → count k (map m.key_of ts) ≤ 1 =
            λ k. unfold count in ground (arith, once k) in
          let still =
            All-weaken ts
              (λ u p. find-at m g (m.key_of u) (m.key_of t) rows keeps ∙ ground (arith, p.0, p.1))
              (All-zip (λ u. m.key_of u ≢ m.key_of t) _ ts
                (ne_of_count_zero m.key_of (m.key_of t) ts absent) found.1) in
          rw (writes t rows h found.0) (
            each-named ts (map (at m (m.key_of t) g) rows)
              (map-IsKeyed m (at m (m.key_of t) g) rows (at-KeepsKeys (m.key_of t) g keeps) h) still
              rest
            ∙ named-cons t ts rows absent)

      -- On a table with unique keys, a loop over the rows of a query that changes the row of each
      -- key changes exactly the rows that the query is about, each once.
      pub each-select :
          (p : R → Bool) (before : R → R → Bool) (rows : List R)
          → IsKeyed m rows
          → each (sort_by before (select p rows)) rows ≡ map (λ r. if p r then g r else r) rows
      each-select p before rows h =
          let chosen = select p rows in
          let sorted = sort_by before chosen in
          let kept = All-sort_by before _ chosen (All-select _ p rows (All-found rows h)) in
          let counted = select-count m.key_of p rows in
          each-named sorted rows h (All-weaken sorted (λ t q. q.0) kept) (λ k. omega (
            arith,
            count-sort_by before m.key_of k chosen,
            count-map-select-le m.key_of k p rows,
            IsKeyed-count rows k h,
          ))
          ∙ map-eq_of_All _ _ rows (
              All-weaken rows
                (λ r q.
                  exact r (contains-of_count r q.1) (holds_of_contains p rows sorted r kept q.0))
                (All-zip _ _ rows (All-found rows h) counted))
        where
          contains-of_count :
              (r : R)
              → (p r ≡ true → 0 < count (m.key_of r) (map m.key_of (select p rows)))
              → p r ≡ true
              → contains (map m.key_of (sort_by before (select p rows))) (m.key_of r) ≡ true
          contains-of_count r q e =
              count-contains (m.key_of r) _
                (omega (arith, q e, count-sort_by before m.key_of (m.key_of r) (select p rows)))

          exact :
              (r : R)
              → (p r ≡ true
                  → contains (map m.key_of (sort_by before (select p rows))) (m.key_of r) ≡ true)
              → (contains (map m.key_of (sort_by before (select p rows))) (m.key_of r) ≡ true
                  → p r ≡ true)
              → named (sort_by before (select p rows)) r ≡ (if p r then g r else r)
          exact r to from = elim (Bool-cases (p r)) [
            | inl e ↦ unfold named in ground (arith, e, to e)
            | inr e ↦ unfold named in ground (arith, e, from)
          ]
