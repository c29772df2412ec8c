-- ===== src/Database/Table/Keyed.antt =====
-- What a writer does to a table whose primary key and text key are unique.
use agent_server_platform.Base.{
  ℕ, String, ◌≡◌, refl, ◌≢◌, Bool, true, false, Option, none, some, List, [], ◌∷◌, map, arith, ◌==◌,
  string_eq, nat_eq, if◌then◌else◌, All, All-weaken, All-zip, map-same, ap, select, head?, ap₂, sym,
  subst, ◌∙◌, option_map,
}
use agent_server_platform.Database.Query.{sort_by, limited}
use agent_server_platform.Database.Table.{Model, set_row, has_id, update, find_by_key, modify}

module _ {R : Type 0} (m : Model R) where
  abbrev pub Differs : R → R → Type 0
  Differs r s = (m.id_of s ≢ m.id_of r) × (m.key_of s ≢ m.key_of r)

  -- No two rows share a key.
  abbrev pub IsKeyed : List R → Type 0
  IsKeyed [] = Unit
  IsKeyed (r ∷ rs) = All (Differs r) rs × IsKeyed rs

  -- The first row of a key.
  unfoldable pub find : String → List R → Option R
  find k [] = none
  find k (r ∷ rs) = if m.key_of r == k then some r else find k rs

  -- A change of the rows of one key.
  abbrev pub at : String → (R → R) → R → R
  at k change r = if m.key_of r == k then change r else r

  select_absent :
      (k : String) (rs : List R)
      → All (λ s. m.key_of s ≢ k) rs
      → select (λ t. m.key_of t == k) rs ≡ []
  unfolding select
  select_absent k [] h = refl
  select_absent k (r ∷ rs) h = ground (arith, select_absent k rs h.1)

  abbrev singleton : Option R → List R
  singleton none = []
  singleton (some t) = t ∷ []

  select-find :
      (k : String) (rs : List R)
      → IsKeyed rs
      → select (λ t. m.key_of t == k) rs ≡ singleton (find k rs)
  unfolding select find
  select-find k [] h = refl
  select-find k (r ∷ rs) h = elim (string_eq.dec (m.key_of r) k) [
    | yes e ↦
        let absent = subst (λ j. All (λ s. m.key_of s ≢ j) rs) e (All-weaken rs (λ s d. d.1) h.0) in
        ground (arith, select_absent k rs absent)
    | no differs ↦ ground (arith, select-find k rs h.1)
  ]

  pub find_by_key-find :
      (k : String) (rows : List R) → IsKeyed rows → find_by_key m k rows ≡ find k rows
  unfolding find_by_key sort_by limited
  find_by_key-find k rows h = rw (select-find k rows h) (head_of (find k rows))
    where
      head_of : (o : Option R) → head? (sort_by m.earlier (singleton o)) ≡ o
      head_of none = refl
      head_of (some t) = refl

  pub find-key : (k : String) (rows : List R) (t : R) → find k rows ≡ some t → m.key_of t ≡ k
  unfolding find
  find-key k [] t e = cc
  find-key k (r ∷ rs) t e = ground (arith, find-key k rs t)

  -- What holds of every row holds of the row that is found.
  pub All-find :
      (P : R → Type 0) (k : String) (rows : List R) (t : R)
      → All P rows
      → find k rows ≡ some t
      → P t
  unfolding find
  All-find P k [] t h e = cc
  All-find P k (r ∷ rs) t h e = elim (string_eq.dec (m.key_of r) k) [
    | yes same ↦ let eq : r ≡ t = ground arith in subst P eq h.0
    | no differs ↦ All-find P k rs t h.1 (ground arith)
  ]

  -- Every row is the one that its key finds.
  pub All-found : (rows : List R) → IsKeyed rows → All (λ t. find (m.key_of t) rows ≡ some t) rows
  unfolding find
  All-found [] h = tt
  All-found (r ∷ rs) h = (
    ground arith,
    All-weaken rs (λ s d. ground (arith, d.0, d.1.1))
        (All-zip (λ s. find (m.key_of s) rs ≡ some s) (Differs r) rs (All-found rs h.1) h.0),
  )

  -- Writing back the copy of a row, with its own primary key, changes that row and no other.
  update-at :
      (k : String) (entity : R) (written : R → R) (rows : List R) (t : R)
      → IsKeyed rows
      → find k rows ≡ some t
      → m.id_of entity ≡ m.id_of t
      → m.overlay entity t ≡ written t
      → map (set_row m entity) rows ≡ map (at k written) rows
  unfolding find
  update-at k entity written [] t h e i w = refl
  update-at k entity written (r ∷ rs) t h e i w = elim (string_eq.dec (m.key_of r) k) [
    | yes same ↦
        let eq : r ≡ t = ground arith in
        let rest =
          map-same (set_row m entity) rs
            (All-weaken rs (λ s d. ground (arith, d.0, ap m.id_of eq)) h.0)
          ∙ sym (map-same (at k written) rs (All-weaken rs (λ s d. ground (arith, d.1)) h.0)) in
        ground (arith, rest, ap m.id_of eq, ap (m.overlay entity) eq, ap written eq)
    | no differs ↦
        let found : find k rs ≡ some t = ground arith in
        let other = All-find (Differs r) k rs t h.0 found in
        ground (arith, other.0, update-at k entity written rs t h.1 found i w)
  ]

  map-at_absent :
      (k : String) (f : R → R) (rows : List R) → find k rows ≡ none → map (at k f) rows ≡ rows
  unfolding find
  map-at_absent k f [] e = refl
  map-at_absent k f (r ∷ rs) e = ground (arith, map-at_absent k f rs)

  has_id-find :
      (k : String) (rows : List R) (t : R) → find k rows ≡ some t → has_id m (m.id_of t) rows ≡ true
  unfolding find
  has_id-find k [] t e = cc
  has_id-find k (r ∷ rs) t e = ground (arith, has_id-find k rs t)

  abbrev pub is_found : Option R → Bool
  is_found none = false
  is_found (some t) = true

  -- On a table with unique keys a writer changes the row of its key, and no other.
  pub modify-at :
      (now : ℕ) (k : String) (change written : R → R) (rows : List R)
      → IsKeyed rows
      → ((t : R) → m.id_of (change t) ≡ m.id_of t)
      → ((t : R) → m.id_of (m.stamped now t) ≡ m.id_of t)
      → ((t : R) → m.overlay (m.stamped now (change t)) t ≡ written t)
      → modify m now k change rows ≡ (map (at k written) rows, is_found (find k rows))
  unfolding modify
  modify-at now k change written rows h keeps stamp w =
      go (find_by_key m k rows) (sym (find_by_key-find k rows h))
    where
      go :
          (o : Option R)
          → find k rows ≡ o
          → ◌≡◌ {A = List R × Bool}
              (elim o [ none ↦ (rows, false) | some r ↦ update m now (change r) rows ])
              (map (at k written) rows, is_found (find k rows))
      go none e = rw (e, map-at_absent k written rows e)
      go (some t) e = rw e (
          ap₂ (λ a b. (a, b)) (update-at k _ written rows t h e (stamp (change t) ∙ keeps t) (w t))
            (rw (keeps t) (has_id-find k rows t e)))

  -- A change of a row that leaves its two keys alone.
  abbrev pub KeepsKeys : (R → R) → Type 0
  KeepsKeys f = (t : R) → (m.id_of (f t) ≡ m.id_of t) × (m.key_of (f t) ≡ m.key_of t)

  All-map_keys :
      (f : R → R) (r : R) (rs : List R)
      → KeepsKeys f
      → All (Differs r) rs
      → All (Differs (f r)) (map f rs)
  All-map_keys f r [] h d = tt
  All-map_keys f r (s ∷ rs) h d = (
    (ground (arith, d.0.0, h r, h s), ground (arith, d.0.1, h r, h s)),
    All-map_keys f r rs h d.1,
  )

  pub map-IsKeyed : (f : R → R) (rows : List R) → KeepsKeys f → IsKeyed rows → IsKeyed (map f rows)
  map-IsKeyed f [] h d = tt
  map-IsKeyed f (r ∷ rs) h d = (All-map_keys f r rs h d.0, map-IsKeyed f rs h d.1)

  -- A lookup after the rows of key `k` have changed.
  pub find-at :
      (f : R → R) (j k : String) (rows : List R)
      → KeepsKeys f
      → find j (map (at k f) rows) ≡ (if j == k then option_map f (find j rows) else find j rows)
  unfolding find
  find-at f j k [] h = ground arith
  find-at f j k (r ∷ rs) h = ground (arith, h r, find-at f j k rs h)
