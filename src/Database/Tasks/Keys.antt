-- ===== src/Database/Tasks/Keys.antt =====
-- Changes of rows that keep the keys, and what a lookup finds after them.
use agent_server_platform.Base.{
  String, ◌≡◌, refl, ◌≢◌, option_map, some, List, [], ◌∷◌, map, arith, ◌==◌, string_eq,
  if◌then◌else◌, All, All-weaken, All-zip, map-eq_of_All, count, count_zero_of_ne, ◌≤◌,
}
use agent_server_platform.Database.Tasks.{Task}
use agent_server_platform.Database.Tasks.Update.{IsKeyed, find, at}

-- A change of a row that leaves its two keys alone.
abbrev pub KeepsKeys : (Task → Task) → Type 0
KeepsKeys f = (t : Task) → ((f t).id ≡ t.id) × ((f t).task_id ≡ t.task_id)

pub at-KeepsKeys : (k : String) (f : Task → Task) → KeepsKeys f → KeepsKeys (at k f)
at-KeepsKeys k f h t = ground (arith, h t)

All-map_keys :
    (f : Task → Task) (r : Task) (rs : List Task)
    → KeepsKeys f
    → All (λ s. (s.id ≢ r.id) × (s.task_id ≢ r.task_id)) rs
    → All (λ s. (s.id ≢ (f r).id) × (s.task_id ≢ (f r).task_id)) (map f rs)
All-map_keys f r [] h d = tt
All-map_keys f r (s ∷ rs) h d =
    ((ground (arith, d.0.0, h r, h s), ground (arith, d.0.1, h r, h s)), All-map_keys f r rs h d.1)

pub map-IsKeyed :
    (f : Task → Task) (rows : List Task) → KeepsKeys f → IsKeyed rows → IsKeyed (map f rows)
map-IsKeyed f [] h d = tt
map-IsKeyed f (r ∷ rs) h d = (All-map_keys f r rs h d.0, map-IsKeyed f rs h d.1)

pub find-map :
    (f : Task → Task) (k : String) (rows : List Task)
    → KeepsKeys f
    → find k (map f rows) ≡ option_map f (find k rows)
unfolding find
find-map f k [] h = refl
find-map f k (r ∷ rs) h = ground (arith, h r, find-map f k rs h)

-- A lookup after the rows of key `k` have changed.
pub find-at :
    (f : Task → Task) (j k : String) (rows : List Task)
    → KeepsKeys f
    → find j (map (at k f) rows) ≡ (if j == k then option_map f (find j rows) else find j rows)
unfolding find
find-at f j k [] h = ground arith
find-at f j k (r ∷ rs) h = ground (arith, h r, find-at f j k rs h)

-- Two changes of the rows of one key, one after the other.
pub at-at :
    (k : String) (f g : Task → Task) (rows : List Task)
    → KeepsKeys g
    → map (at k f) (map (at k g) rows) ≡ map (at k (λ t. f (g t))) rows
at-at k f g [] h = refl
at-at k f g (r ∷ rs) h = ground (arith, h r, at-at k f g rs h)

-- Only the row that a key finds is changed by `at`.
pub at-eq_of_find :
    (k : String) (f g : Task → Task) (rows : List Task) (t : Task)
    → IsKeyed rows
    → find k rows ≡ some t
    → f t ≡ g t
    → map (at k f) rows ≡ map (at k g) rows
unfolding find
at-eq_of_find k f g [] t h e same = refl
at-eq_of_find k f g (r ∷ rs) t h e same = elim (string_eq.dec r.task_id k) [
  | yes here ↦
      let eq : r ≡ t = ground arith in
      let rest =
        map-eq_of_All (at k f) (at k g) rs (All-weaken rs (λ s d. ground (arith, d.1)) h.0) in
      ground (arith, rest)
  | no differs ↦ ground (arith, at-eq_of_find k f g rs t h.1)
]

pub All-found : (rows : List Task) → IsKeyed rows → All (λ t. find t.task_id rows ≡ some t) rows
unfolding find
All-found [] h = tt
All-found (r ∷ rs) h = (
  ground arith,
  All-weaken rs (λ t d. ground (arith, d.0.1, d.1))
      (All-zip (λ s. (s.id ≢ r.id) × (s.task_id ≢ r.task_id)) (λ t. find t.task_id rs ≡ some t) rs
        h.0 (All-found rs h.1)),
)

pub IsKeyed-count :
    (rows : List Task) (k : String) → IsKeyed rows → count k (map (λ t. t.task_id) rows) ≤ 1
unfolding count
IsKeyed-count [] k h = omega arith
IsKeyed-count (r ∷ rs) k h = ground (
  arith,
  IsKeyed-count rs k h.1,
  count_zero_of_ne (λ t. t.task_id) r.task_id rs (All-weaken rs (λ s d. d.1) h.0),
)
