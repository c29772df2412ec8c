-- ===== src/EventBus/Patterns.antt =====
-- Which events reach a handler that has subscribed to a pattern.
use agent_server_platform.Base.{
  ℕ, String, ◌<>◌, ◌≡◌, sym, ap, ◌∙◌, true, some, List, [], ◌∷◌, ◌++◌, arith, string_eq, nat_eq,
  contains, contains-append, Bool-cases, Option-cases, inl, inr, strip_suffix, strip_suffix-append,
}
use agent_server_platform.Base.Dict.{Dict, lookup, insert, lookup-insert}
use agent_server_platform.EventBus.{EventBus, handlers_of, subscribe, wildcard_handlers, called}
use text.Mathlib.Text
use text.Mathlib.TextPositions.{starts_with-append}

-- A handler of a pattern is called for every event that the pattern's prefix begins.
wildcard_handlers-contains :
    (event_type pattern prefix : String) (h : ℕ) (handlers : List ℕ) (d : Dict String (List ℕ))
    → strip_suffix ".*" pattern ≡ some prefix
    → Text.starts_with event_type prefix ≡ true
    → contains handlers h ≡ true
    → lookup pattern d ≡ some handlers
    → contains (wildcard_handlers event_type d) h ≡ true
unfolding wildcard_handlers lookup
wildcard_handlers-contains event_type pattern prefix h handlers [] s b c e = cc
wildcard_handlers-contains event_type pattern prefix h handlers ((k, hs) ∷ d) s b c e =
    elim (string_eq.dec pattern k) [
      | yes same ↦
          let strip : strip_suffix ".*" k ≡ some prefix = sym (ap (strip_suffix ".*") same) ∙ s in
          rw (strip, b, wildcard_handlers)
            (contains-append h hs (wildcard_handlers event_type d) ∙ ground (arith, c))
      | no differs ↦
          let later =
            wildcard_handlers-contains event_type pattern prefix h handlers d s b c
              (ground arith) in
          elim (Option-cases (strip_suffix ".*" k)) [
            | inl other ↦ rw (other, wildcard_handlers) later
            | inr (p, other) ↦ elim (Bool-cases (Text.starts_with event_type p)) [
              | inl begins ↦
                  rw (other, begins, wildcard_handlers)
                    (contains-append h hs (wildcard_handlers event_type d) ∙ ground (arith, later))
              | inr differs ↦ rw (other, differs, wildcard_handlers) later
            ]
          ]
    ]

contains_last : (h : ℕ) (hs : List ℕ) → contains (hs ++ h ∷ []) h ≡ true
unfolding contains
contains_last h hs = contains-append h hs (h ∷ []) ∙ ground arith

-- A handler that subscribes to `prefix.*` is called for every event whose type begins with the prefix,
-- whether or not a dot follows the prefix there.
pub called-subscribe :
    (prefix rest : String) (handler : ℕ) (bus : EventBus)
    → contains
        (called (prefix <> rest) (subscribe (prefix <> ".*") handler bus).subscribers)
        handler
      ≡ true
unfolding called subscribe
called-subscribe prefix rest handler bus =
    let pattern = prefix <> ".*" in
    let handlers = handlers_of pattern bus.subscribers ++ handler ∷ [] in
    let d = insert pattern handlers bus.subscribers in
    contains-append handler (handlers_of (prefix <> rest) d) (wildcard_handlers (prefix <> rest) d)
    ∙ ground (
      arith,
      wildcard_handlers-contains (prefix <> rest) pattern prefix handler handlers d
          (strip_suffix-append ".*" prefix) (starts_with-append prefix rest)
          (contains_last handler (handlers_of pattern bus.subscribers))
          (lookup-insert pattern pattern handlers bus.subscribers ∙ ground arith),
    )
