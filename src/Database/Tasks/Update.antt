-- ===== src/Database/Tasks/Update.antt =====
-- What the writers of the task repository do to a table whose `id` and `task_id` are unique.
use agent_server_platform.Base.{
  ℕ, String, ◌≡◌, refl, ◌≢◌, Bool, true, false, Option, none, some, List, [], ◌∷◌, map, arith, ◌==◌,
  string_eq, nat_eq, if◌then◌else◌, All, All-weaken, map-same, select, head?, ap₂, sym, subst, ◌∙◌,
}
use agent_server_platform.Database.Query.{sort_by, limited}
use agent_server_platform.StateMachine.{TaskState}
use agent_server_platform.Database.Tasks.{
  Task, instant, or_stored, overlay, set_row, has_id, update, newer, find_by_task_id, modify,
  set_state, update_task_state, increment_retry, increment_retry_count, started, mark_as_started,
  Completion, completed, mark_as_completed, failed_with, mark_as_failed,
}

-- No two rows share an `id`, and no two share a `task_id`.
abbrev pub IsKeyed : List Task → Type 0
IsKeyed [] = Unit
IsKeyed (r ∷ rs) = All (λ s. (s.id ≢ r.id) × (s.task_id ≢ r.task_id)) rs × IsKeyed rs

-- The first row of a key, whatever the order of a query.
unfoldable pub find : String → List Task → Option Task
find k [] = none
find k (r ∷ rs) = if r.task_id == k then some r else find k rs

-- A change of the rows of one key.
abbrev pub at : String → (Task → Task) → Task → Task
at k change r = if r.task_id == k then change r else r

select_absent :
    (k : String) (rs : List Task)
    → All (λ s. s.task_id ≢ k) rs
    → select (λ t. t.task_id == k) rs ≡ []
unfolding select
select_absent k [] h = refl
select_absent k (r ∷ rs) h = ground (arith, select_absent k rs h.1)

select-find :
    (k : String) (rs : List Task)
    → IsKeyed rs
    → select (λ t. t.task_id == k) rs ≡ elim (find k rs) [ none ↦ [] | some t ↦ t ∷ [] ]
unfolding select find
select-find k [] h = refl
select-find k (r ∷ rs) h = elim (string_eq.dec r.task_id k) [
  | yes e ↦
      let absent = subst (λ j. All (λ s. s.task_id ≢ j) rs) e (All-weaken rs (λ s d. d.1) h.0) in
      ground (arith, select_absent k rs absent)
  | no differs ↦ ground (arith, select-find k rs h.1)
]

-- `find_by_task_id` finds the row of the key, whatever the order of the query.
pub find_by_task_id-find :
    (k : String) (rows : List Task) → IsKeyed rows → find_by_task_id k rows ≡ find k rows
unfolding find_by_task_id sort_by limited find
find_by_task_id-find k rows h = rw (select-find k rows h) (head_of (find k rows))
  where
    head_of : (o : Option Task) → head? (sort_by newer (elim o [ none ↦ [] | some t ↦ t ∷ [] ])) ≡ o
    head_of none = refl
    head_of (some t) = refl

pub find-task_id : (k : String) (rows : List Task) (t : Task) → find k rows ≡ some t → t.task_id ≡ k
unfolding find
find-task_id k [] t e = cc
find-task_id k (r ∷ rs) t e = ground (arith, find-task_id k rs t)

-- What holds of every row holds of the row that is found.
pub All-find :
    (P : Task → Type 0) (k : String) (rows : List Task) (t : Task)
    → All P rows
    → find k rows ≡ some t
    → P t
unfolding find
All-find P k [] t h e = cc
All-find P k (r ∷ rs) t h e = elim (string_eq.dec r.task_id k) [
  | yes same ↦ let eq : r ≡ t = ground arith in subst P eq h.0
  | no differs ↦ All-find P k rs t h.1 (ground arith)
]

-- Writing back the copy of a row, with its own keys, changes that row and no other.
update-at :
    (k : String) (entity : Task) (written : Task → Task) (rows : List Task) (t : Task)
    → IsKeyed rows
    → find k rows ≡ some t
    → entity.id ≡ t.id
    → overlay entity t ≡ written t
    → map (set_row entity) rows ≡ map (at k written) rows
unfolding find
update-at k entity written [] t h e i w = refl
update-at k entity written (r ∷ rs) t h e i w = elim (string_eq.dec r.task_id k) [
  | yes same ↦
      let eq : r ≡ t = ground arith in
      let rest =
        map-same (set_row entity) rs (All-weaken rs (λ s d. ground (arith, d.0)) h.0)
        ∙ sym (map-same (at k written) rs (All-weaken rs (λ s d. ground (arith, d.1)) h.0)) in
      ground (arith, rest)
  | no differs ↦
      let found : find k rs ≡ some t = ground arith in
      let other = All-find (λ s. (s.id ≢ r.id) × (s.task_id ≢ r.task_id)) k rs t h.0 found in
      ground (arith, update-at k entity written rs t h.1 found i w)
]

map-at_absent :
    (k : String) (f : Task → Task) (rows : List Task)
    → find k rows ≡ none
    → map (at k f) rows ≡ rows
unfolding find
map-at_absent k f [] e = refl
map-at_absent k f (r ∷ rs) e = ground (arith, map-at_absent k f rs)

has_id-find :
    (k : String) (rows : List Task) (t : Task) → find k rows ≡ some t → has_id t.id rows ≡ true
unfolding find
has_id-find k [] t e = cc
has_id-find k (r ∷ rs) t e = ground (arith, has_id-find k rs t)

abbrev pub is_found : Option Task → Bool
is_found none = false
is_found (some t) = true

-- What a writer stores for a row: the copy that it changed, with `updated_at` renewed.
abbrev stored : ℕ → (Task → Task) → Task → Task
stored now change t =
    let entity = change t in
    overlay
      (record entity {
        updated_at = elim entity.updated_at [ none ↦ none | some _ ↦ some (instant now) ];
      })
      t

modify-at :
    (now : ℕ) (k : String) (change written : Task → Task) (rows : List Task)
    → IsKeyed rows
    → ((t : Task) → (change t).id ≡ t.id)
    → ((t : Task) → stored now change t ≡ written t)
    → modify now k change rows ≡ (map (at k written) rows, is_found (find k rows))
unfolding modify update
modify-at now k change written rows h keeps w =
    go (find_by_task_id k rows) (sym (find_by_task_id-find k rows h))
  where
    go :
        (o : Option Task)
        → find k rows ≡ o
        → ◌≡◌ {A = List Task × Bool}
            (elim o [ none ↦ (rows, false) | some task ↦ update now (change task) rows ])
            (map (at k written) rows, is_found (find k rows))
    go none e = rw (e, map-at_absent k written rows e)
    go (some t) e = rw e (
        ap₂ (λ a b. (a, b)) (update-at k _ written rows t h e (keeps t) (w t))
          (rw (keeps t) (has_id-find k rows t e)))

pub or_stored_self : {A : Type 0} (o : Option A) → or_stored o o ≡ o
or_stored_self none = refl
or_stored_self (some a) = refl

or_stored_twice :
    {A : Type 0} (new old : Option A) → or_stored (or_stored new old) old ≡ or_stored new old
or_stored_twice none old = or_stored_self old
or_stored_twice (some a) old = refl

module _ (now : ℕ) (k : String) (rows : List Task) (keyed : IsKeyed rows) where
  -- On a table with unique keys a state is written to the row of the key, whatever state it had, and to
  -- no other row; the answer tells whether there is one.
  pub update_task_state-at :
      (s : TaskState)
      → update_task_state now k s rows ≡ (map (at k (set_state now s)) rows, is_found (find k rows))
  unfolding update_task_state overlay
  update_task_state-at s =
      modify-at now k (set_state now s) (set_state now s) rows keyed (λ t. refl)
        (λ t. simp or_stored_self)

  -- On a table with unique keys the row of the key has one retry more, and no other row changes; the
  -- answer tells whether there is one.
  pub increment_retry_count-at :
      increment_retry_count now k rows
      ≡ (map (at k (increment_retry now)) rows, is_found (find k rows))
  unfolding increment_retry_count overlay
  increment_retry_count-at =
      modify-at now k (increment_retry now) (increment_retry now) rows keyed (λ t. refl)
        (λ t. simp or_stored_self)

  -- On a table with unique keys the row of the key is `running` from now on, and no other row changes.
  pub mark_as_started-at :
      mark_as_started now k rows ≡ (map (at k (started now)) rows, is_found (find k rows))
  unfolding mark_as_started overlay
  mark_as_started-at =
      modify-at now k (started now) (started now) rows keyed (λ t. refl) (λ t. simp or_stored_self)

  -- On a table with unique keys the row of the key is `success` with the result, and no other row
  -- changes; a result that is None leaves the stored one, since an UPDATE writes no None.
  pub mark_as_completed-at :
      (c : Completion)
      → mark_as_completed now k c rows ≡ (
        map (at k (λ t. record (completed now c t) { result = or_stored c.result t.result })) rows,
        is_found (find k rows),
      )
  unfolding mark_as_completed overlay
  mark_as_completed-at c =
      modify-at now k (completed now c) _ rows keyed (λ t. refl)
        (λ t. simp (or_stored_self, or_stored_twice))

  -- On a table with unique keys the row of the key is `failed` with the error, and no other row changes.
  pub mark_as_failed-at :
      (error : String)
      → mark_as_failed now k error rows
        ≡ (map (at k (failed_with now error)) rows, is_found (find k rows))
  unfolding mark_as_failed overlay
  mark_as_failed-at error =
      modify-at now k (failed_with now error) (failed_with now error) rows keyed (λ t. refl)
        (λ t. simp or_stored_self)
