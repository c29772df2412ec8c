-- ===== src/Base/Marks.antt =====
-- What the regular expressions of the program find in a text: words, and braces behind a mark.
use Prim.Native.Nat.{ℕ, zero, suc, ◌-◌}
use Prim.Native.Char.{Char, code}
use Prim.Native.String.{String, [], ◌∷◌, ◌++◌, count}
use mathlib.Core.Bool.{Bool, true, ◌&&◌, ◌||◌}
use mathlib.Core.Option.{Option, none, some, map as option_map}
use agent_server_platform.Base.Equality.{◌==◌, nat_eq, leb, if◌then◌else◌}
use agent_server_platform.Base.Text.{after_first, is_space_code, has_prefix}

-- `[0-9a-fA-F]`
unfoldable pub is_hex : Char → Bool
is_hex c =
    let n = code c in (leb 48 n && leb n 57) || (leb 65 n && leb n 70) || (leb 97 n && leb n 102)

unfoldable pub all_chars : (Char → Bool) → String → Bool
all_chars p [] = true
all_chars p (c ∷ s) = p c && all_chars p s

-- The first maximal run of word characters that passes a test; `run` is the run so far.
unfoldable pub first_word : (Char → Bool) → (String → Bool) → String → String → Option String
first_word is_word ok run [] = if ok run then some run else none
first_word is_word ok run (c ∷ s) =
    let longer = first_word is_word ok (run ++ (c ∷ [])) s in
    let next = first_word is_word ok [] s in
    if is_word c then longer else if ok run then some run else next

-- `s.lstrip()`
unfoldable pub skip_space : String → String
unfolding is_space_code
skip_space [] = []
skip_space (c ∷ s) = let rest = skip_space s in if is_space_code (code c) then rest else c ∷ s

-- A match of `\{.*?\}\s*` and three backquotes at the start of a text: the braces with what they hold,
-- and what follows the match.
abbrev closes : String → Option String
closes s = let t = skip_space s in if has_prefix "```" t then after_first "```" t else none

abbrev longer_by : Char → Option (String × String) → Option (String × String)
longer_by c found = option_map (λ (m : String × String). (c ∷ m.0, m.1)) found

until_close : String → Option (String × String)
unfolding skip_space after_first
until_close [] = none
until_close (c ∷ s) =
    let rest = longer_by c (until_close s) in
    let closed : Option (String × String) = elim (closes s) [
      | none ↦ rest
      | some r ↦ some (c ∷ [], r)
    ] in
    if code c == 0x7d then closed else rest

unfoldable pub braced : String → Option (String × String)
unfolding until_close
braced [] = none
braced (c ∷ s) = if code c == 0x7b then longer_by c (until_close s) else none

-- `re.search` of an opening mark, spaces and such a match: what stands in the braces.
abbrev marked : String → String → Option (String × String)
marked mark s =
    let inside : Option (String × String) = elim (after_first mark s) [
      | none ↦ none
      | some r ↦ braced (skip_space r)
    ] in
    if has_prefix mark s then inside else none

unfoldable pub find_marked : String → String → Option String
unfolding braced skip_space after_first
find_marked mark [] = none
find_marked mark (c ∷ s) =
    let rest = find_marked mark s in
    elim (marked mark (c ∷ s)) [ some (inside, _) ↦ some inside | none ↦ rest ]

-- `re.sub` of the same by nothing; the first number is how much of a match is still to be passed over.
remove_from : String → ℕ → String → String
unfolding braced skip_space after_first
remove_from mark k [] = []
remove_from mark (suc k) (c ∷ s) = remove_from mark k s
remove_from mark zero (c ∷ s) = elim (marked mark (c ∷ s)) [
  | some (_, rest) ↦ remove_from mark (count s - count rest) s
  | none ↦ c ∷ remove_from mark zero s
]

unfoldable pub remove_marked : String → String → String
unfolding remove_from
remove_marked mark s = remove_from mark zero s
