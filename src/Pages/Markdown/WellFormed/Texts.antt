-- ===== src/Pages/Markdown/WellFormed/Texts.antt =====
-- What holds of every character of the escaped text holds of every text of the output.
use native.Mathlib.Decide.{ℕ_discrete}
use agent_server_platform.Base.{
  ℕ, zero, suc, ◌+◌, ◌≡◌, refl, ap, Bool, true, false, not, ◌&&◌, ◌||◌, Option, none, some, List,
  [], ◌∷◌, ◌++◌, ◌==◌, nat_eq, Bool-cases, inl, inr, arith, length, all, All, All-weaken,
  option_map,
}
use agent_server_platform.Pages.Markdown.{
  Kind, ul, ol, Tag, li, p, strong, heading, Token, opening, closing, rule, newline, chars, Line,
  ruler, empty, title, bullet, numbered, regular, escape_char, escape, split_lines, skip_spaces,
  strip_end, at_stars, until_stars, strong_after, strong_at, inline_from, element, close_list,
  open_list, append_line, append_lines, join_lines, lines_of, markdown_to_html,
}
use agent_server_platform.Pages.Markdown.WellFormed.Lines.{
  All-concat, HasTexts, AllSome, All-split_lines, All-skip_spaces, All-strip_end, HasTexts-classify,
}

-- No `<`, no `>` and no quotation mark.
abbrev pub is_clean : ℕ → Bool
is_clean c = not ((c == b'<') || (c == b'>') || (c == 34) || (c == 39))

abbrev pub IsCleanChar : ℕ → Type 0
IsCleanChar c = is_clean c ≡ true

-- The texts among the tokens are clean.
abbrev pub IsClean : Token → Type 0
IsClean (chars cs) = All IsCleanChar cs
IsClean (opening t) = Unit
IsClean (closing t) = Unit
IsClean rule = Unit
IsClean newline = Unit

-- A text that the test passes.
all_clean : (s : List ℕ) → all is_clean s ≡ true → All IsCleanChar s
unfolding all
all_clean [] h = tt
all_clean (c ∷ s) h = (ground (arith, h), all_clean s (ground (arith, h)))

clean_other :
    (c : ℕ)
    → (c == b'<') ≡ false
    → (c == b'>') ≡ false
    → (c == 34) ≡ false
    → (c == 39) ≡ false
    → is_clean c ≡ true
clean_other c e2 e3 e4 e5 = rw (e2, e3, e4, e5) refl

escape_char-clean : (c : ℕ) → all is_clean (escape_char c) ≡ true
unfolding escape_char all nat_eq ℕ_discrete
escape_char-clean c = elim (Bool-cases (c == b'&')) [
  | inl e ↦ rw e refl
  | inr e1 ↦ elim (Bool-cases (c == b'<')) [
    | inl e ↦ rw (e1, e) refl
    | inr e2 ↦ elim (Bool-cases (c == b'>')) [
      | inl e ↦ rw (e1, e2, e) refl
      | inr e3 ↦ elim (Bool-cases (c == 34)) [
        | inl e ↦ rw (e1, e2, e3, e) refl
        | inr e4 ↦ elim (Bool-cases (c == 39)) [
          | inl e ↦ rw (e1, e2, e3, e4, e) refl
          | inr e5 ↦ rw (e1, e2, e3, e4, e5) (ap (λ b. b && true) (clean_other c e2 e3 e4 e5))
        ]
      ]
    ]
  ]
]

escape-IsClean : (s : List ℕ) → All IsCleanChar (escape s)
unfolding escape
escape-IsClean [] = tt
escape-IsClean (c ∷ s) =
    All-concat IsCleanChar (escape_char c) (escape s)
      (all_clean (escape_char c) (escape_char-clean c)) (escape-IsClean s)

module _ (P : ℕ → Type 0) where
  -- The contents of the tokens.
  abbrev Holds : Token → Type 0
  Holds (chars cs) = All P cs
  Holds (opening t) = Unit
  Holds (closing t) = Unit
  Holds rule = Unit
  Holds newline = Unit

  All-until_stars : (s : List ℕ) → All P s → AllSome P (until_stars s)
  unfolding until_stars
  All-until_stars [] h = tt
  All-until_stars (c ∷ s) h = elim (Bool-cases (at_stars (c ∷ s))) [
    | inl e ↦ rw e tt
    | inr e ↦ rw e (go (until_stars s) (All-until_stars s h.1))
  ]
    where
      go : (o : Option (List ℕ)) → AllSome P o → AllSome P (option_map (λ t. c ∷ t) o)
      go none k = tt
      go (some t) k = (h.0, k)

  All-strong_after : (s : List ℕ) → All P s → AllSome P (strong_after s)
  unfolding strong_after
  All-strong_after [] h = tt
  All-strong_after (c ∷ s) h = go (until_stars s) (All-until_stars s h.1)
    where
      go : (o : Option (List ℕ)) → AllSome P o → AllSome P (option_map (λ t. c ∷ t) o)
      go none k = tt
      go (some t) k = (h.0, k)

  All-strong_at : (s : List ℕ) → All P s → AllSome P (strong_at s)
  unfolding strong_at
  All-strong_at [] h = tt
  All-strong_at (c ∷ []) h = tt
  All-strong_at (c ∷ d ∷ s) h = elim (Bool-cases ((c == b'*') && (d == b'*'))) [
    | inl e ↦ rw e (All-strong_after s h.1.1)
    | inr e ↦ rw e tt
  ]

  Holds-inline_from : (k : ℕ) (s : List ℕ) → All P s → All Holds (inline_from k s)
  unfolding inline_from
  Holds-inline_from k [] h = tt
  Holds-inline_from (suc k) (c ∷ s) h = Holds-inline_from k s h.1
  Holds-inline_from zero (c ∷ s) h =
      go (strong_at (c ∷ s)) (All-strong_at (c ∷ s) h) (Holds-inline_from zero s h.1)
        (λ k. Holds-inline_from k s h.1)
    where
      go :
          (o : Option (List ℕ))
          → AllSome P o
          → All Holds (inline_from zero s)
          → ((k : ℕ) → All Holds (inline_from k s))
          → All Holds (elim o [
            | none ↦ chars (c ∷ []) ∷ inline_from zero s
            | some inner ↦
                opening strong ∷ chars inner ∷ closing strong ∷ inline_from (length inner + 3) s
          ])
      go none k plain rest = ((h.0, tt), plain)
      go (some inner) k plain rest = (tt, (k, (tt, rest (length inner + 3))))

  Holds-element : (t : Tag) (content : List ℕ) → All P content → All Holds (element t content)
  unfolding element
  Holds-element t content h = (
    tt,
    All-concat Holds (inline_from zero content) (closing t ∷ []) (Holds-inline_from zero content h)
        (tt, tt),
  )

  Holds-close_list : (o : Option Kind) → All (All Holds) (close_list o)
  Holds-close_list none = tt
  Holds-close_list (some k) = ((tt, tt), tt)

  Holds-open_list : (k : Kind) (o : Option Kind) → All (All Holds) (open_list k o)
  Holds-open_list k none = ((tt, tt), tt)
  Holds-open_list ul (some ul) = tt
  Holds-open_list ul (some ol) = ((tt, tt), ((tt, tt), tt))
  Holds-open_list ol (some ul) = ((tt, tt), ((tt, tt), tt))
  Holds-open_list ol (some ol) = tt

  -- An element after others.
  Holds-then :
      (ds : List (List Token)) (e : List Token)
      → All (All Holds) ds
      → All Holds e
      → All (All Holds) (ds ++ e ∷ [])
  Holds-then ds e h k = All-concat (All Holds) ds (e ∷ []) h (k, tt)

  Holds-append_line :
      (o : Option Kind) (l : Line) → HasTexts P l → All (All Holds) (append_line o l).0
  unfolding append_line
  Holds-append_line o ruler h = Holds-then (close_list o) _ (Holds-close_list o) (tt, tt)
  Holds-append_line o empty h = Holds-then (close_list o) _ (Holds-close_list o) tt
  Holds-append_line o (title n content) h =
      Holds-then (close_list o) _ (Holds-close_list o) (Holds-element (heading (n + 2)) content h)
  Holds-append_line o (bullet content) h =
      Holds-then (open_list ul o) _ (Holds-open_list ul o) (Holds-element li content h)
  Holds-append_line o (numbered content) h =
      Holds-then (open_list ol o) _ (Holds-open_list ol o) (Holds-element li content h)
  Holds-append_line o (regular content) h =
      Holds-then (close_list o) _ (Holds-close_list o) (Holds-element p content h)

  Holds-append_lines :
      (o : Option Kind) (ls : List Line) → All (HasTexts P) ls → All (All Holds) (append_lines o ls)
  unfolding append_lines
  Holds-append_lines o [] h = Holds-close_list o
  Holds-append_lines o (l ∷ ls) h =
      All-concat (All Holds) (append_line o l).0 (append_lines (append_line o l).1 ls)
        (Holds-append_line o l h.0) (Holds-append_lines (append_line o l).1 ls h.1)

  Holds-join_lines : (es : List (List Token)) → All (All Holds) es → All Holds (join_lines es)
  unfolding join_lines
  Holds-join_lines [] h = tt
  Holds-join_lines (e ∷ []) h = h.0
  Holds-join_lines (e ∷ f ∷ es) h =
      All-concat Holds e (newline ∷ join_lines (f ∷ es)) h.0 (tt, Holds-join_lines (f ∷ es) h.1)

  HasTexts-lines_of :
      (is_digit : ℕ → Bool) (ls : List (List ℕ))
      → All (All P) ls
      → All (HasTexts P) (lines_of is_digit ls)
  unfolding lines_of
  HasTexts-lines_of is_digit [] h = tt
  HasTexts-lines_of is_digit (l ∷ ls) h = (
    HasTexts-classify P is_digit (strip_end (skip_spaces l))
        (All-strip_end P (skip_spaces l) (All-skip_spaces P l h.0)),
    HasTexts-lines_of is_digit ls h.1,
  )

pub markdown_to_html-IsClean :
    (is_digit : ℕ → Bool) (s : List ℕ) → All IsClean (markdown_to_html is_digit s)
unfolding markdown_to_html
markdown_to_html-IsClean is_digit [] = tt
markdown_to_html-IsClean is_digit (c ∷ s) =
    let ls = split_lines (escape (c ∷ s)) in
    let clean = All-split_lines IsCleanChar (escape (c ∷ s)) (escape-IsClean (c ∷ s)) in
    All-weaken (markdown_to_html is_digit (c ∷ s)) same (
      Holds-join_lines IsCleanChar (append_lines none (lines_of is_digit ls)) (
        Holds-append_lines IsCleanChar none (lines_of is_digit ls)
          (HasTexts-lines_of IsCleanChar is_digit ls clean)))
  where
    same : (t : Token) → Holds IsCleanChar t → IsClean t
    same (chars cs) h = h
    same (opening t) h = tt
    same (closing t) h = tt
    same rule h = tt
    same newline h = tt
