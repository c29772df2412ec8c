-- ===== src/Pages/Export/FileName.antt =====
-- What the name of an exported file is made of: `_sanitize_filename` of
-- src/pages/scenario_dashboard/export_html.py.
use native.Mathlib.Decide.{ℕ_discrete}
use agent_server_platform.Base.{
  head?, some, ℕ, zero, suc, ◌≤◌, ◌≡◌, ◌≢◌, ap, All, refl, Bool, true, false, not, List, [], ◌∷◌,
  ◌==◌, nat_eq, if◌then◌else◌, length, take, all, contains, is_space_code, arith,
}
use agent_server_platform.Pages.Export.{
  is_forbidden, replace_runs, skip_underscores, drop_underscores, unless_underscore, named_or,
  sanitize_filename,
}

abbrev is_safe : ℕ → Bool
is_safe c = not (is_forbidden c)

abbrev begins_well : List ℕ → Bool
begins_well [] = true
begins_well (c ∷ s) = not (c == b'_')

underscore_safe : is_forbidden b'_' ≡ false
unfolding is_forbidden contains nat_eq is_space_code
underscore_safe = ground arith

round-is_safe :
    (u c : ℕ) (b : Bool) (inside outside : List ℕ)
    → is_forbidden u ≡ false
    → all is_safe inside ≡ true
    → all is_safe outside ≡ true
    → all is_safe (if is_forbidden c then (if b then inside else u ∷ inside) else c ∷ outside)
      ≡ true
unfolding all
round-is_safe u c b inside outside hu hi ho = ground arith

replace_runs-is_safe : (b : Bool) (s : List ℕ) → all is_safe (replace_runs b s) ≡ true
unfolding replace_runs all
replace_runs-is_safe b [] = refl
replace_runs-is_safe b (c ∷ s) =
    round-is_safe b'_' c b (replace_runs true s) (replace_runs false s) underscore_safe
      (replace_runs-is_safe true s) (replace_runs-is_safe false s)

skip_underscores-all :
    (p : ℕ → Bool) (s : List ℕ) → all p s ≡ true → all p (skip_underscores s) ≡ true
unfolding skip_underscores all
skip_underscores-all p [] h = refl
skip_underscores-all p (c ∷ s) h = ground (arith, skip_underscores-all p s)

skip_underscores-begins_well : (s : List ℕ) → begins_well (skip_underscores s) ≡ true
unfolding skip_underscores
skip_underscores-begins_well [] = refl
skip_underscores-begins_well (c ∷ s) = ground (arith, skip_underscores-begins_well s)

unless_underscore-all :
    (p : ℕ → Bool) (c : ℕ) (s : List ℕ)
    → p c ≡ true
    → all p s ≡ true
    → all p (unless_underscore c s) ≡ true
unfolding all
unless_underscore-all p c [] hc h = ground arith
unless_underscore-all p c (d ∷ s) hc h = ground arith

drop_underscores-all :
    (p : ℕ → Bool) (s : List ℕ) → all p s ≡ true → all p (drop_underscores s) ≡ true
unfolding drop_underscores all
drop_underscores-all p [] h = refl
drop_underscores-all p (c ∷ s) h =
    ground (arith, unless_underscore-all p c (drop_underscores s), drop_underscores-all p s)

unless_underscore-begins_well :
    (c : ℕ) (s : List ℕ) → not (c == b'_') ≡ true → begins_well (unless_underscore c s) ≡ true
unless_underscore-begins_well c [] h = ground arith
unless_underscore-begins_well c (d ∷ s) h = h

drop_underscores-begins_well :
    (s : List ℕ) → begins_well s ≡ true → begins_well (drop_underscores s) ≡ true
unfolding drop_underscores
drop_underscores-begins_well [] h = refl
drop_underscores-begins_well (c ∷ s) h = unless_underscore-begins_well c (drop_underscores s) h

take-all : (p : ℕ → Bool) (n : ℕ) (s : List ℕ) → all p s ≡ true → all p (take n s) ≡ true
unfolding all
take-all p zero s h = refl
take-all p (suc n) [] h = refl
take-all p (suc n) (c ∷ s) h = ground (arith, take-all p n s)

length-take-le : (n : ℕ) (s : List ℕ) → length (take n s) ≤ n
length-take-le zero s = omega arith
length-take-le (suc n) [] = omega arith
length-take-le (suc n) (c ∷ s) = omega (arith, length-take-le n s)

named_or-lem :
    (s : List ℕ)
    → all is_safe s ≡ true
    → begins_well s ≡ true
    → length s ≤ 40
    → (all is_safe (named_or s) ≡ true)
      × (begins_well (named_or s) ≡ true)
      × (1 ≤ length (named_or s))
      × (length (named_or s) ≤ 40)
unfolding all is_forbidden contains is_space_code nat_eq ℕ_discrete
named_or-lem [] hs hb hl = (refl, refl, omega arith, omega arith)
named_or-lem (c ∷ s) hs hb hl = (hs, hb, omega arith, hl)

take-begins_well : (n : ℕ) (s : List ℕ) → begins_well s ≡ true → begins_well (take n s) ≡ true
take-begins_well zero s h = refl
take-begins_well (suc n) [] h = refl
take-begins_well (suc n) (c ∷ s) h = h

-- No separator, wildcard, quotation mark, redirection or blank.
abbrev pub IsPlain : ℕ → Type 0
IsPlain c =
    (c ≢ b'\\')
    × (c ≢ b'/')
    × (c ≢ b':')
    × (c ≢ b'*')
    × (c ≢ b'?')
    × (c ≢ b'"')
    × (c ≢ b'<')
    × (c ≢ b'>')
    × (c ≢ b'|')
    × (c ≢ 32)
    × (c ≢ 9)
    × (c ≢ 10)
    × (c ≢ 11)
    × (c ≢ 12)
    × (c ≢ 13)

-- A character that is kept is none that is replaced.
safe_ne : (c d : ℕ) → is_safe c ≡ true → is_forbidden d ≡ true → c ≢ d
safe_ne c d safe bad e = ground (arith, ap is_forbidden e)

is_safe-IsPlain : (c : ℕ) → is_safe c ≡ true → IsPlain c
unfolding is_forbidden contains is_space_code nat_eq ℕ_discrete
is_safe-IsPlain c h = (
  safe_ne c b'\\' h refl,
  safe_ne c b'/' h refl,
  safe_ne c b':' h refl,
  safe_ne c b'*' h refl,
  safe_ne c b'?' h refl,
  safe_ne c b'"' h refl,
  safe_ne c b'<' h refl,
  safe_ne c b'>' h refl,
  safe_ne c b'|' h refl,
  safe_ne c 32 h refl,
  safe_ne c 9 h refl,
  safe_ne c 10 h refl,
  safe_ne c 11 h refl,
  safe_ne c 12 h refl,
  safe_ne c 13 h refl,
)

begins_well-head : (s : List ℕ) → begins_well s ≡ true → head? s ≢ some b'_'
begins_well-head [] h e = cc
begins_well-head (c ∷ s) h e = ground (arith, h, e)

all-IsPlain : (s : List ℕ) → all is_safe s ≡ true → All IsPlain s
unfolding all
all-IsPlain [] h = tt
all-IsPlain (c ∷ s) h = (is_safe-IsPlain c (ground arith), all-IsPlain s (ground arith))

-- Whatever a scenario is called, the name made of it has from 1 to 40 characters, does not begin with
-- `_`, and holds none of the characters \ / : * ? " < > | and no ASCII white space (the codes 9 to 13 and 32).
pub sanitize_filename-IsPlain :
    (name : List ℕ)
    → All IsPlain (sanitize_filename name)
      × (head? (sanitize_filename name) ≢ some b'_')
      × (1 ≤ length (sanitize_filename name))
      × (length (sanitize_filename name) ≤ 40)
unfolding sanitize_filename
sanitize_filename-IsPlain name =
    let replaced = replace_runs false name in
    let begun = skip_underscores replaced in
    let cleaned = drop_underscores begun in
    let (safe, well, some_left, short) =
      named_or-lem (take 40 cleaned)
        (take-all is_safe 40 cleaned (
          drop_underscores-all is_safe begun
            (skip_underscores-all is_safe replaced (replace_runs-is_safe false name))))
        (take-begins_well 40 cleaned
          (drop_underscores-begins_well begun (skip_underscores-begins_well replaced)))
        (length-take-le 40 cleaned) in
    (all-IsPlain _ safe, begins_well-head _ well, some_left, short)
