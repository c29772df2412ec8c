-- ===== src/Pages/Assistant/Chat/Target.antt =====
-- Which scenario a turn of the conversation binds its draft to.
use Prim.Native.Char.{Char}
use agent_server_platform.Base.{
  String, ◌≡◌, refl, sym, ap, ◌∙◌, ◌≢◌, subst, Bool, true, Option, none, some, List, [], ◌∷◌, ◌==◌,
  string_eq, any, has_text, select, head?, All, All-weaken, All-select, Option-cases, Bool-cases,
  inl, inr, arith, leb, text_length, has_prefix,
}
use agent_server_platform.Base.Marks.{first_word}
use agent_server_platform.StateMachine.{ScenarioState, scenario_state_eq}
use agent_server_platform.Database.Query.{sort_by, All-sort_by}
use agent_server_platform.Database.Table.Keyed.{IsKeyed, find-key, find_by_key-find, All-found}
use agent_server_platform.Database.Scenarios.{Scenario, scenario_model, find_by_scenario_id, newer}
use agent_server_platform.Pages.Assistant.{Spec, spec_of, load_scenario_spec, resolve_scenario}
use agent_server_platform.Pages.Assistant.Chat.{
  Detected, no_edit, target, locked, modify_keywords, is_id, goes_on, resolve_target, detect_wanted,
  wanted_id, detect_edit, load_target, take_answer, ask, turn, reply, parse_scene_spec,
}

module _ (rows : List Scenario) (keyed : IsKeyed scenario_model rows) where
  abbrev IsFound : Scenario → Type 0
  IsFound t = find_by_scenario_id t.scenario_id rows ≡ some t

  every_IsFound : All IsFound rows
  every_IsFound =
      All-weaken rows (λ t e. find_by_key-find scenario_model t.scenario_id rows keyed ∙ e)
        (All-found scenario_model rows keyed)

  head-IsFound :
      (ts : List Scenario) (s : Scenario) → All IsFound ts → head? ts ≡ some s → IsFound s
  head-IsFound [] s h e = cc
  head-IsFound (t ∷ ts) s h e = let same : t ≡ s = cc e in subst IsFound same h.0

  like-IsFound :
      (p : Scenario → Bool) (s : Scenario)
      → head? (select p (sort_by newer rows)) ≡ some s
      → IsFound s
  like-IsFound p s e =
      head-IsFound (select p (sort_by newer rows)) s
        (All-weaken (select p (sort_by newer rows)) (λ t h. h.0)
          (All-select IsFound p (sort_by newer rows)
            (All-sort_by newer IsFound rows every_IsFound)))
        e

  -- A scenario is resolved to the row that its own id finds.
  resolve-IsFound :
      (wanted : String) (s : Scenario) → resolve_scenario wanted rows ≡ some s → IsFound s
  unfolding resolve_scenario
  resolve-IsFound wanted s e = elim (Option-cases (find_by_scenario_id wanted rows)) [
    | inr (t, found) ↦
        let same : t ≡ s = cc (rw (found, resolve_scenario) at e) in
        let found' = sym (find_by_key-find scenario_model wanted rows keyed) ∙ found in
        let key : t.scenario_id ≡ wanted = find-key scenario_model wanted rows t found' in
        subst IsFound same (ap (λ k. find_by_scenario_id k rows) key ∙ found)
    | inl absent ↦ elim (Bool-cases (leb 4 (text_length wanted))) [
      | inl long ↦
          like-IsFound (λ c. has_prefix wanted c.scenario_id) s
            (rw (absent, resolve_scenario, long) at e)
      | inr short ↦ cc (rw (absent, resolve_scenario, short) at e)
    ]
  ]

  resolve_target-Loadable :
      (o : Option Scenario) (k : String)
      → ((s : Scenario) → o ≡ some s → IsFound s)
      → resolve_target o ≡ target k
      → (s : Scenario) × (find_by_scenario_id k rows ≡ some s)
        × (s.state ≡ ScenarioState.initializing)
  resolve_target-Loadable none k h e = cc e
  resolve_target-Loadable (some s) k h e =
      elim (Bool-cases (s.state == ScenarioState.initializing)) [
        | inl may ↦
            let same : s.scenario_id ≡ k = cc (rw may at e) in
            (
              s,
              subst (λ j. find_by_scenario_id j rows ≡ some s) same (h s refl),
              ground (arith, may),
            )
        | inr never ↦ cc (rw never at e)
      ]

  detect_wanted-Loadable :
      (wanted saved_id : Option String) (pending : Option Spec) (k : String)
      → detect_wanted wanted saved_id pending rows ≡ target k
      → (s : Scenario) × (find_by_scenario_id k rows ≡ some s)
        × (s.state ≡ ScenarioState.initializing)
  detect_wanted-Loadable none saved_id pending k e = cc e
  detect_wanted-Loadable (some wanted) saved_id pending k e = elim (Bool-cases (wanted == "")) [
    | inl empty ↦ cc (rw empty at e)
    | inr named ↦ elim (Bool-cases (goes_on wanted saved_id pending rows)) [
      | inl same ↦ cc (rw (named, same) at e)
      | inr other ↦
          resolve_target-Loadable (resolve_scenario wanted rows) k (resolve-IsFound wanted)
            (rw (named, other) at e)
    ]
  ]

module _ (is_word : Char → Bool) (strip : String → String) (loads : String → Option Spec) where
  take_answer-saved_id :
      (raw : Option String) (pending : Option Spec) (saved_id : Option String)
      → (take_answer is_word strip loads raw pending saved_id).saved_id ≡ saved_id
  unfolding take_answer
  take_answer-saved_id none pending saved_id = refl
  take_answer-saved_id (some raw) pending saved_id = elim (Bool-cases (raw == "")) [
    | inl silent ↦ rw silent refl
    | inr spoken ↦ elim (Option-cases (parse_scene_spec is_word strip loads raw)) [
      | inl e ↦ rw (spoken, e) refl
      | inr (spec, e) ↦ rw (spoken, e) refl
    ]
  ]

  module _ (chat : Option Spec → Option String) (pending : Option Spec) (saved_id : Option String)
      (rows : List Scenario) where
    turn-target :
        (k : String) (s : Scenario)
        → find_by_scenario_id k rows ≡ some s
        → turn is_word strip loads chat pending saved_id rows (target k)
          ≡ ask is_word strip loads chat (some (spec_of s), some k)
    unfolding turn load_scenario_spec
    turn-target k s found = rw (found, load_scenario_spec) refl

    ask-saved_id :
        (w : Option Spec × Option String) → (ask is_word strip loads chat w).saved_id ≡ w.1
    ask-saved_id w = take_answer-saved_id (chat w.0) w.0 w.1

    load_target_bound :
        (j k : String) (o : Option Spec)
        → (load_target j pending saved_id o).1 ≡ some k
        → saved_id ≢ some k
        → j ≡ k
    load_target_bound j k none e new = absurd (new e)
    load_target_bound j k (some loaded) e new = cc e

    -- Only a scenario that is to be loaded changes the id.
    turn_bound :
        (d : Detected) (k : String)
        → (turn is_word strip loads chat pending saved_id rows d).saved_id ≡ some k
        → saved_id ≢ some k
        → d ≡ target k
    unfolding turn
    turn_bound no_edit k e new =
        absurd (new (sym (take_answer-saved_id (chat pending) pending saved_id) ∙ e))
    turn_bound (locked j s) k e new = absurd (new e)
    turn_bound (target j) k e new = ap target (
        load_target_bound j k (load_scenario_spec j rows)
          (sym (ask-saved_id (load_target j pending saved_id (load_scenario_spec j rows))) ∙ e) new)

  -- When a turn, over a table with unique keys, binds the draft to a scenario that it was not bound to, the
  -- user's text has one of the words for a change, and there is a row of that id, which is
  -- `initializing`; the model was asked with the whole draft that the row holds.
  pub reply-saved_id :
      (chat : Option Spec → Option String) (user_text : String) (pending : Option Spec)
      (saved_id : Option String) (rows : List Scenario) (k : String)
      → IsKeyed scenario_model rows
      → (reply is_word strip loads chat user_text pending saved_id rows).saved_id ≡ some k
      → saved_id ≢ some k
      → (any (λ w. has_text w user_text) modify_keywords ≡ true)
        × ((s : Scenario) × (find_by_scenario_id k rows ≡ some s)
            × (s.state ≡ ScenarioState.initializing)
            × (reply is_word strip loads chat user_text pending saved_id rows
                ≡ take_answer is_word strip loads
                    (chat (some (spec_of s)))
                    (some (spec_of s))
                    (some k)))
  unfolding reply detect_edit
  reply-saved_id chat user_text pending saved_id rows k keyed e new =
      let detected =
        turn_bound chat pending saved_id rows (detect_edit is_word user_text saved_id pending rows)
          k e new in
      elim (Bool-cases (any (λ w. has_text w user_text) modify_keywords)) [
        | inl asked ↦
            let wanted = wanted_id (first_word is_word is_id "" user_text) saved_id in
            let (s, found, state) =
              detect_wanted-Loadable rows keyed wanted saved_id pending k (rw asked at detected) in
            (
              asked,
              (
                s,
                found,
                state,
                ap (turn is_word strip loads chat pending saved_id rows) detected
                    ∙ turn-target chat pending saved_id rows k s found,
              ),
            )
        | inr silent ↦ cc (rw silent at detected)
      ]
