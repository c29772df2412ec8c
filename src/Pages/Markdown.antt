-- ===== src/Pages/Markdown.antt =====
-- `_markdown_to_html` of src/pages/scenario_dashboard/export_html.py on the code points of a text. Its
-- output is the list of the tags and characters that make up the text. `is_digit` is `\d` of the
-- regular expressions. Tags hold no star and a dot matches no line feed, so the strong passages of the
-- joined text are those of the contents of its lines.
pub mod WellFormed
mod Samples
use agent_server_platform.Base.{
  ℕ, zero, suc, ◌+◌, Bool, true, false, ◌&&◌, ◌||◌, Option, none, some, List, [], ◌∷◌, ◌++◌, ◌==◌,
  nat_eq, if◌then◌else◌, leb, length, all, option_map, is_space_code,
}

pub data Kind : Type 0 where
  ul ol : Kind

pub data Tag : Type 0 where
  list : Kind → Tag
  li p strong : Tag
  heading : (level : ℕ) → Tag

pub data Token : Type 0 where
  opening closing : Tag → Token
  rule newline : Token
  chars : List ℕ → Token

-- `html.escape`
unfoldable pub escape_char : ℕ → List ℕ
escape_char c =
    if c == b'&'
    then b'&' ∷ b'a' ∷ b'm' ∷ b'p' ∷ b';' ∷ []
    else if c == b'<'
    then b'&' ∷ b'l' ∷ b't' ∷ b';' ∷ []
    else if c == b'>'
    then b'&' ∷ b'g' ∷ b't' ∷ b';' ∷ []
    else if c == 34
    then b'&' ∷ b'q' ∷ b'u' ∷ b'o' ∷ b't' ∷ b';' ∷ []
    else if c == 39
    then b'&' ∷ b'#' ∷ b'x' ∷ b'2' ∷ b'7' ∷ b';' ∷ []
    else c ∷ []

unfoldable pub escape : List ℕ → List ℕ
unfolding escape_char
escape [] = []
escape (c ∷ s) = escape_char c ++ escape s

-- `s.split("\n")`
abbrev pub onto_first : ℕ → List (List ℕ) → List (List ℕ)
onto_first c [] = (c ∷ []) ∷ []
onto_first c (l ∷ ls) = (c ∷ l) ∷ ls

unfoldable pub split_lines : List ℕ → List (List ℕ)
split_lines [] = [] ∷ []
split_lines (c ∷ s) = let rest = split_lines s in if c == 10 then [] ∷ rest else onto_first c rest

-- `s.strip()`
unfoldable pub skip_spaces : List ℕ → List ℕ
unfolding is_space_code
skip_spaces [] = []
skip_spaces (c ∷ s) = let rest = skip_spaces s in if is_space_code c then rest else c ∷ s

abbrev pub keep_before : ℕ → List ℕ → List ℕ
keep_before c [] = if is_space_code c then [] else c ∷ []
keep_before c (d ∷ s) = c ∷ d ∷ s

unfoldable pub strip_end : List ℕ → List ℕ
unfolding is_space_code
strip_end [] = []
strip_end (c ∷ s) = keep_before c (strip_end s)

-- What the tests of the loop make of a stripped line.
pub data Line : Type 0 where
  ruler empty : Line
  title : ℕ → List ℕ → Line
  bullet numbered regular : List ℕ → Line

-- `\s+(.*)$`
unfoldable pub after_spaces : List ℕ → Option (List ℕ)
unfolding is_space_code skip_spaces
after_spaces [] = none
after_spaces (c ∷ s) = if is_space_code c then some (skip_spaces s) else none

-- `-{3,}|\*{3,}|_{3,}` on the whole line.
unfoldable pub is_rule : List ℕ → Bool
unfolding all
is_rule s =
    leb 3 (length s) && (all (λ c. c == b'-') s || all (λ c. c == b'*') s || all (λ c. c == b'_') s)

-- `^(#{1,4})\s+(.*)$`, with the number of marks that were read.
unfoldable pub title_after : ℕ → List ℕ → Option (ℕ × List ℕ)
unfolding after_spaces
title_after n [] = none
title_after n (c ∷ s) =
    let more = title_after (n + 1) s in
    let ends = option_map (λ content. (n, content)) (after_spaces (c ∷ s)) in
    if c == b'#' then more else if leb 1 n && leb n 4 then ends else none

-- `^[-*+]\s+(.*)$`
unfoldable pub bullet_of : List ℕ → Option (List ℕ)
unfolding after_spaces
bullet_of [] = none
bullet_of (c ∷ s) = if (c == b'-') || (c == b'*') || (c == b'+') then after_spaces s else none

module _ (is_digit : ℕ → Bool) where
  -- `^\d+[.)]\s+(.*)$`, with whether a digit was read.
  unfoldable pub number_after : Bool → List ℕ → Option (List ℕ)
  unfolding after_spaces
  number_after read [] = none
  number_after read (c ∷ s) =
      let more = number_after true s in
      if is_digit c
      then more
      else if read && ((c == b'.') || (c == b')'))
      then after_spaces s
      else none

  abbrev pub text_line : List ℕ → Line
  text_line [] = empty
  text_line (c ∷ s) = regular (c ∷ s)

  abbrev pub list_line : List ℕ → Line
  list_line s = elim (bullet_of s) [
    | some content ↦ bullet content
    | none ↦ elim (number_after false s) [ some content ↦ numbered content | none ↦ text_line s ]
  ]

  unfoldable pub classify : List ℕ → Line
  unfolding is_rule title_after bullet_of number_after
  classify s =
      let other : Line = elim (title_after 0 s) [
        | some (n, content) ↦ title n content
        | none ↦ list_line s
      ] in
      if is_rule s then ruler else other

-- `\*\*(.+?)\*\*`: what stands before the next two stars, and such a passage at the start of a text.
abbrev pub at_stars : List ℕ → Bool
at_stars [] = false
at_stars (c ∷ []) = false
at_stars (c ∷ d ∷ s) = (c == b'*') && (d == b'*')

unfoldable pub until_stars : List ℕ → Option (List ℕ)
until_stars [] = none
until_stars (c ∷ s) =
    let rest = option_map (λ t. c ∷ t) (until_stars s) in if at_stars (c ∷ s) then some [] else rest

abbrev pub strong_after : List ℕ → Option (List ℕ)
unfolding until_stars
strong_after [] = none
strong_after (x ∷ s) = option_map (λ t. x ∷ t) (until_stars s)

unfoldable pub strong_at : List ℕ → Option (List ℕ)
unfolding strong_after
strong_at [] = none
strong_at (c ∷ []) = none
strong_at (c ∷ d ∷ s) =
    let inner = strong_after s in if (c == b'*') && (d == b'*') then inner else none

-- The content of a line; the number is how much of a passage is still to be passed over.
unfoldable pub inline_from : ℕ → List ℕ → List Token
unfolding strong_at
inline_from k [] = []
inline_from (suc k) (c ∷ s) = inline_from k s
inline_from zero (c ∷ s) = elim (strong_at (c ∷ s)) [
  | none ↦ chars (c ∷ []) ∷ inline_from zero s
  | some inner ↦ opening strong ∷ chars inner ∷ closing strong ∷ inline_from (length inner + 3) s
]

abbrev pub element : Tag → List ℕ → List Token
unfolding inline_from
element tag content = opening tag ∷ (inline_from zero content ++ closing tag ∷ [])

-- `close_list`
abbrev pub close_list : Option Kind → List (List Token)
close_list none = []
close_list (some k) = (closing (list k) ∷ []) ∷ []

abbrev pub same_kind : Kind → Kind → Bool
same_kind ul ul = true
same_kind ol ol = true
same_kind ul ol = false
same_kind ol ul = false

-- `if list_open != kind: close_list(); out.append(...)`
abbrev pub open_list : Kind → Option Kind → List (List Token)
open_list k none = (opening (list k) ∷ []) ∷ []
open_list k (some j) =
    if same_kind k j then [] else close_list (some j) ++ (opening (list k) ∷ []) ∷ []

-- One round of the loop: what is appended to `out`, and the list that is open after it.
unfoldable pub append_line : Option Kind → Line → List (List Token) × Option Kind
unfolding element
append_line o ruler = (close_list o ++ (rule ∷ []) ∷ [], none)
append_line o (title n content) = (close_list o ++ element (heading (n + 2)) content ∷ [], none)
append_line o (bullet content) = (open_list ul o ++ element li content ∷ [], some ul)
append_line o (numbered content) = (open_list ol o ++ element li content ∷ [], some ol)
append_line o empty = (close_list o ++ [] ∷ [], none)
append_line o (regular content) = (close_list o ++ element p content ∷ [], none)

unfoldable pub append_lines : Option Kind → List Line → List (List Token)
unfolding append_line
append_lines o [] = close_list o
append_lines o (l ∷ ls) =
    let (out, open_after) = append_line o l in out ++ append_lines open_after ls

-- `"\n".join(out)`
unfoldable pub join_lines : List (List Token) → List Token
join_lines [] = []
join_lines (e ∷ []) = e
join_lines (e ∷ f ∷ es) = e ++ newline ∷ join_lines (f ∷ es)

module _ (is_digit : ℕ → Bool) where
  abbrev pub lines_of : List (List ℕ) → List Line
  unfolding classify skip_spaces strip_end
  lines_of [] = []
  lines_of (l ∷ ls) = classify is_digit (strip_end (skip_spaces l)) ∷ lines_of ls

  unfoldable pub markdown_to_html : List ℕ → List Token
  unfolding lines_of split_lines escape append_lines join_lines
  markdown_to_html [] = []
  markdown_to_html (c ∷ s) =
      join_lines (append_lines none (lines_of (split_lines (escape (c ∷ s)))))
