-- ===== src/Scheduling/Waves/Ids.antt =====
-- The dict `by_id` of `_build_waves`: it has each id of the plan once, and looks up what it should.
use agent_server_platform.Base.{
  suc, String, ◌≡◌, refl, true, false, not, ◌&&◌, ◌||◌, Option, none, some, List, [], ◌∷◌, map,
  arith, ap₂, count_zero_of_not-contains, All-append, ◌==◌, string_eq, if◌then◌else◌, contains,
  count, flatten, All, contains-select,
}
use agent_server_platform.Base.Dict.{Dict, lookup, insert, keys, lookup-insert}
use agent_server_platform.Scheduling.Subtasks.{Subtask}
use agent_server_platform.Scheduling.Waves.{
  is_known, sanitized, by_id, by_id_from, deps_of, resolve, resolve_all,
}

pub contains-keys :
    (sid : String) (d : Dict String Subtask) → contains (keys d) sid ≡ is_known d sid
unfolding contains keys lookup
contains-keys sid [] = refl
contains-keys sid ((k, s) ∷ d) = ground (arith, contains-keys sid d)

contains-sanitized :
    (known : Dict String Subtask) (s : Subtask) (d : String)
    → contains (sanitized known s) d ≡ true
    → contains (keys known) d ≡ true
unfolding sanitized
contains-sanitized known s d h = ground (
  arith,
  contains-select d (λ d. is_known known d && not (d == s.id)) s.depends_on,
  contains-keys d known,
)

pub deps_of-known :
    (subtasks : List Subtask) (sid d : String)
    → contains (deps_of subtasks sid) d ≡ true
    → contains (keys (by_id subtasks)) d ≡ true
unfolding deps_of contains
deps_of-known subtasks sid d = go (lookup sid (by_id subtasks))
  where
    go :
        (found : Option Subtask)
        → contains (elim found [ none ↦ [] | some s ↦ sanitized (by_id subtasks) s ]) d ≡ true
        → contains (keys (by_id subtasks)) d ≡ true
    go none h = cc
    go (some s) h = contains-sanitized (by_id subtasks) s d h

-- Each subtask of the dict stands under its own id.
abbrev pub IsNamed : Dict String Subtask → Type 0
IsNamed d = (sid : String) (s : Subtask) → lookup sid d ≡ some s → s.id ≡ sid

by_id_from-IsNamed :
    (d : Dict String Subtask) (subtasks : List Subtask)
    → IsNamed d
    → IsNamed (by_id_from d subtasks)
unfolding by_id_from
by_id_from-IsNamed d [] named = named
by_id_from-IsNamed d (s ∷ subs) named =
    by_id_from-IsNamed (insert s.id s d) subs
      (λ sid t h. ground (arith, lookup-insert sid s.id s d, named sid t))

pub by_id-IsNamed : (subtasks : List Subtask) → IsNamed (by_id subtasks)
unfolding by_id lookup
by_id-IsNamed subtasks = by_id_from-IsNamed [] subtasks (λ sid s h. cc)

count-keys-insert :
    (a sid : String) (s : Subtask) (d : Dict String Subtask)
    → count a (keys (insert sid s d)) ≡ (
        if (a == sid) && not (contains (keys d) sid)
        then suc (count a (keys d))
        else count a (keys d))
unfolding count keys insert contains
count-keys-insert a sid s [] = ground arith
count-keys-insert a sid s ((k, t) ∷ d) = ground (arith, count-keys-insert a sid s d)

contains-keys-insert :
    (a sid : String) (s : Subtask) (d : Dict String Subtask)
    → contains (keys (insert sid s d)) a ≡ (contains (keys d) a || (a == sid))
unfolding keys insert contains
contains-keys-insert a sid s [] = ground arith
contains-keys-insert a sid s ((k, t) ∷ d) = ground (arith, contains-keys-insert a sid s d)

-- The dict has each id of the plan once.
count-keys-by_id_from :
    (a : String) (d : Dict String Subtask) (subtasks : List Subtask)
    → count a (keys (by_id_from d subtasks)) ≡ (
        if contains (keys d) a
        then count a (keys d)
        else if contains (map (λ s. s.id) subtasks) a
        then 1
        else 0)
unfolding by_id_from contains
count-keys-by_id_from a d [] = ground (arith, count_zero_of_not-contains a (keys d))
count-keys-by_id_from a d (s ∷ subs) = ground (
  arith,
  count-keys-by_id_from a (insert s.id s d) subs,
  count-keys-insert a s.id s d,
  contains-keys-insert a s.id s d,
  count_zero_of_not-contains a (keys d),
)

resolve-id :
    (known : Dict String Subtask) (sids : List String)
    → IsNamed known
    → All (λ sid. is_known known sid ≡ true) sids
    → map (λ s. s.id) (resolve known sids) ≡ sids
unfolding resolve
resolve-id known [] named h = refl
resolve-id known (sid ∷ sids) named h =
    go (lookup sid known) (resolve-id known sids named h.1) refl h.0
  where
    go :
        (found : Option Subtask)
        → map (λ s. s.id) (resolve known sids) ≡ sids
        → lookup sid known ≡ found
        → elim found [ none ↦ false | some _ ↦ true ] ≡ true
        → map
            (λ s. s.id)
            (elim found [ none ↦ resolve known sids | some s ↦ s ∷ resolve known sids ])
          ≡ sid ∷ sids
    go none rest e is = cc
    go (some s) rest e is = ap₂ ◌∷◌ (named sid s e) rest

pub resolve_all-id :
    (known : Dict String Subtask) (ws : List (List String))
    → IsNamed known
    → All (λ sid. is_known known sid ≡ true) (flatten ws)
    → map (map (λ s. s.id)) (resolve_all known ws) ≡ ws
unfolding resolve_all flatten
resolve_all-id known [] named h = refl
resolve_all-id known (w ∷ ws) named h =
    ap₂ ◌∷◌ (resolve-id known w named (All-append _ w (flatten ws) h).0)
      (resolve_all-id known ws named (All-append _ w (flatten ws) h).1)

pub count-keys-by_id :
    (a : String) (subtasks : List Subtask)
    → count a (keys (by_id subtasks)) ≡ (if contains (map (λ s. s.id) subtasks) a then 1 else 0)
unfolding by_id keys contains
count-keys-by_id a subtasks = count-keys-by_id_from a [] subtasks
