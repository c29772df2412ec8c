-- ===== src/Database/Table.antt =====
-- `BaseRepository[T]` of src/database/repositories/base_repository.py for any model class: a row is
-- found by a text column, and a changed copy of it is written back by its primary key.
pub mod Keyed
pub mod Sweep
pub mod Added
use agent_server_platform.Base.{
  ℕ, String, Bool, true, false, Option, none, some, List, [], ◌∷◌, map, ◌==◌, string_eq, nat_eq,
  if◌then◌else◌, head?,
}
use agent_server_platform.Database.Query.{find_by_criteria}

-- A model class: its integer primary key, the text column that rows are found by, its default order,
-- the stamp of `update` and what an UPDATE with the columns of `to_dict` makes of a row.
pub record Model (R : Type 0) : Type 0 where
  pub id_of : R → ℕ
  pub key_of : R → String
  pub earlier : R → R → Bool
  pub stamped : ℕ → R → R
  pub overlay : R → R → R

module _ {R : Type 0} (m : Model R) where
  abbrev pub set_row : R → R → R
  set_row entity row = if m.id_of row == m.id_of entity then m.overlay entity row else row

  abbrev pub has_id : ℕ → List R → Bool
  has_id i [] = false
  has_id i (r ∷ rs) = if m.id_of r == i then true else has_id i rs

  -- `BaseRepository.update`
  unfoldable pub update : ℕ → R → List R → List R × Bool
  update now entity rows = (map (set_row (m.stamped now entity)) rows, has_id (m.id_of entity) rows)

  -- `results = self.find_by_criteria({column: key}); results[0] if results else None`
  unfoldable pub find_by_key : String → List R → Option R
  unfolding find_by_criteria
  find_by_key k rows = head? (find_by_criteria (λ r. m.key_of r == k) m.earlier none rows)

  -- The shape of a writer: find the row, change the copy, write it back.
  unfoldable pub modify : ℕ → String → (R → R) → List R → List R × Bool
  unfolding update
  modify now k change rows = elim (find_by_key k rows) [
    | none ↦ (rows, false)
    | some r ↦ update now (change r) rows
  ]
