-- ===== src/Base/Text.antt =====
-- Parts of texts, and tests on them.
use Prim.Native.Nat.{ℕ, zero, suc, ◌≤◌}
use Prim.Native.Char.{Char, code}
use Prim.Native.String.{String, [], ◌∷◌, ◌++◌, count, len, slice}
use text.Mathlib.Text
use mathlib.Core.Path.{◌≡◌, ap}
use mathlib.Core.Logic.{◌≢◌, inl, inr}
use mathlib.Core.Bool.{Bool, true, false, ◌&&◌, ◌||◌}
use mathlib.Core.Option.{Option, none, some, map as option_map}
use native.Mathlib.Omega.{arith}
use text.Mathlib.TextLemmas.{nil-append, cons-append, length-append, length-cons}
use agent_server_platform.Base.Equality.{◌==◌, string_eq, nat_eq, leb, if◌then◌else◌, Option-cases}

-- A text without its end, where it ends in `t`: `s[:-len(t)]` if `s.endswith(t)`.
unfoldable pub strip_suffix : String → String → Option String
strip_suffix t [] = if [] == t then some [] else none
strip_suffix t (c ∷ s) =
    let rest = option_map (λ p. c ∷ p) (strip_suffix t s) in if (c ∷ s) == t then some [] else rest

pub strip_suffix-some : (t s p : String) → strip_suffix t s ≡ some p → s ≡ p ++ t
unfolding strip_suffix
strip_suffix-some t [] p e = ground (arith, nil-append t)
strip_suffix-some t (c ∷ s) p e = elim (Option-cases (strip_suffix t s)) [
  | inl absent ↦ ground (arith, absent, nil-append t)
  | inr (q, found) ↦ ground (
    arith,
    found,
    nil-append t,
    cons-append c q t,
    ap (λ x. c ∷ x) (strip_suffix-some t s q found),
  )
]

-- A text is not longer than itself.
longer : (c : Char) (p t : String) → (c ∷ (p ++ t)) ≢ t
longer c p t e = absurd (omega (arith, ap count e, length-cons c (p ++ t), length-append p t))

pub strip_suffix-append : (t p : String) → strip_suffix t (p ++ t) ≡ some p
unfolding strip_suffix
strip_suffix-append t [] = rw (nil-append t) (whole t)
  where
    whole : (s : String) → strip_suffix s s ≡ some []
    whole [] = ground arith
    whole (c ∷ s) = ground arith
strip_suffix-append t (c ∷ p) =
    rw (cons-append c p t) (ground (arith, longer c p t, strip_suffix-append t p))

-- What stands before the first `t`, or the whole text: `s.split(t)[0]`.
unfoldable pub before_first : String → String → String
before_first t [] = []
before_first t (c ∷ s) =
    let rest = before_first t s in if Text.starts_with (c ∷ s) t then [] else c ∷ rest

-- What stands after the first `t`, which is not empty; nothing where there is none.
unfoldable pub after_first : String → String → Option String
after_first t [] = none
after_first t (c ∷ s) =
    let rest = after_first t s in
    if Text.starts_with (c ∷ s) t then some (slice (c ∷ s) (len t) (len (c ∷ s))) else rest

-- The characters that `str.strip` removes and that `\s` matches.
unfoldable pub is_space_code : ℕ → Bool
is_space_code c =
    if leb 9 c
    then if leb c 13
      then true
      else if leb 28 c
      then leb c 32
        || (c == 0x85)
        || (c == 0xa0)
        || (c == 0x1680)
        || (leb 0x2000 c && leb c 0x200a)
        || (c == 0x2028)
        || (c == 0x2029)
        || (c == 0x202f)
        || (c == 0x205f)
        || (c == 0x3000)
      else false
    else false

-- `not s.strip()`
unfoldable pub is_blank : String → Bool
unfolding is_space_code
is_blank [] = true
is_blank (c ∷ s) = is_space_code (code c) && is_blank s

-- `t in s`, for a `t` that is not empty.
unfoldable pub has_text : String → String → Bool
unfolding after_first
has_text t s = elim (after_first t s) [ none ↦ false | some _ ↦ true ]

-- `s.startswith(t)`, `s[:n]` and `len(s)`.
abbrev pub has_prefix : String → String → Bool
has_prefix t s = Text.starts_with s t

unfoldable pub prefix : ℕ → String → String
prefix zero s = []
prefix (suc n) [] = []
prefix (suc n) (c ∷ s) = c ∷ prefix n s

abbrev pub text_length : String → ℕ
text_length s = count s

pub text_length-prefix : (n : ℕ) (s : String) → text_length (prefix n s) ≤ n
unfolding prefix
text_length-prefix zero s = omega arith
text_length-prefix (suc n) [] = omega arith
text_length-prefix (suc n) (c ∷ s) =
    omega (arith, length-cons c (prefix n s), text_length-prefix n s)
