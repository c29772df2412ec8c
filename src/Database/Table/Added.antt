-- ===== src/Database/Table/Added.antt =====
-- What a lookup finds once a row with a new key has been added.
use agent_server_platform.Base.{
  String, ◌≡◌, refl, ap, ◌∙◌, none, some, List, [], ◌∷◌, ◌++◌, arith, ◌==◌, string_eq, select,
  select-append, head?,
}
use agent_server_platform.Database.Query.{sort_by, insert_sorted, limited, empty-of-head}
use agent_server_platform.Database.Table.{Model, find_by_key}

module _ {R : Type 0} (m : Model R) where
  pub find_by_key-added :
      (k : String) (rows : List R) (r : R)
      → find_by_key m k rows ≡ none
      → m.key_of r ≡ k
      → find_by_key m k (rows ++ r ∷ []) ≡ some r
  unfolding find_by_key limited select sort_by insert_sorted
  find_by_key-added k rows r absent e =
      ap (λ rs. head? (sort_by m.earlier rs))
        (select-append (λ s. m.key_of s == k) rows (r ∷ [])
          ∙ ap (λ rs. rs ++ select (λ s. m.key_of s == k) (r ∷ []))
              (empty-of-head m.earlier (select (λ s. m.key_of s == k) rows) absent)
          ∙ one)
      ∙ last
    where
      one : [] ++ select (λ s. m.key_of s == k) (r ∷ []) ≡ r ∷ []
      one = ground (arith, e)

      last : head? (sort_by m.earlier (r ∷ [])) ≡ some r
      last = refl
