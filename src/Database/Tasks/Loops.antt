-- ===== src/Database/Tasks/Loops.antt =====
-- Loops over the rows of a task query, by the laws of any table.
use agent_server_platform.Base.{
  String, ◌≡◌, refl, sym, ◌∙◌, Bool, none, some, List, [], ◌∷◌, map, if◌then◌else◌, string_eq,
  select, arith,
}
use agent_server_platform.Database.Query.{sort_by}
use agent_server_platform.Database.Table.{Model}
use agent_server_platform.Database.Table.Keyed as Keyed
use agent_server_platform.Database.Table.Sweep as Sweep
use agent_server_platform.Database.Tasks.{Task, instant, overlay, newer}
use agent_server_platform.Database.Tasks.Update.{IsKeyed, find, at}
use agent_server_platform.Database.Tasks.Keys.{KeepsKeys}

abbrev pub task_model : Model Task
task_model = record {
  id_of = λ t. t.id;
  key_of = λ t. t.task_id;
  earlier = newer;
  stamped = λ now t. record t {
    updated_at = elim t.updated_at [ none ↦ none | some _ ↦ some (instant now) ];
  };
  overlay = overlay;
}

to_table : (rows : List Task) → IsKeyed rows → Keyed.IsKeyed task_model rows
to_table [] h = tt
to_table (r ∷ rs) h = (h.0, to_table rs h.1)

pub of_table : (rows : List Task) → Keyed.IsKeyed task_model rows → IsKeyed rows
of_table [] h = tt
of_table (r ∷ rs) h = (h.0, of_table rs h.1)

find-table : (k : String) (rows : List Task) → Keyed.find task_model k rows ≡ find k rows
unfolding find Keyed.find
find-table k [] = refl
find-table k (r ∷ rs) = ground (arith, find-table k rs)

module _ (step : Task → List Task → List Task) (g : Task → Task) (keeps : KeepsKeys g)
    (writes : (t : Task) (rows : List Task)
      → IsKeyed rows
      → find t.task_id rows ≡ some t
      → step t rows ≡ map (at t.task_id g) rows) where
  -- A loop over the tasks of a query that changes the row of each of them, on a table with unique
  -- keys, changes exactly the rows that the query is about.
  pub each-select :
      (p : Task → Bool) (rows : List Task)
      → IsKeyed rows
      → Sweep.each task_model step (sort_by newer (select p rows)) rows
        ≡ map (λ r. if p r then g r else r) rows
  each-select p rows h =
      Sweep.each-select task_model step g keeps
        (λ t rs k f. writes t rs (of_table rs k) (sym (find-table t.task_id rs) ∙ f)) p newer rows
        (to_table rows h)
