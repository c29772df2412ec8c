-- ===== src/Pages/Markdown/WellFormed/Lines.antt =====
-- What holds of every character of a text holds of the contents of its lines.
use agent_server_platform.Base.{
  ℕ, ◌+◌, Bool, true, false, ◌&&◌, ◌||◌, Option, none, some, List, [], ◌∷◌, ◌++◌, ◌==◌, nat_eq,
  Bool-cases, inl, inr, All, leb, is_space_code, option_map,
}
use agent_server_platform.Pages.Markdown.{
  Line, ruler, empty, title, bullet, numbered, regular, onto_first, split_lines, skip_spaces,
  keep_before, strip_end, after_spaces, title_after, bullet_of, number_after, is_rule, text_line,
  list_line, classify,
}

pub All-concat {ℓ} :
    {A : Type ℓ} (P : A → Type 0) (xs ys : List A) → All P xs → All P ys → All P (xs ++ ys)
All-concat P [] ys h k = k
All-concat P (x ∷ xs) ys h k = (h.0, All-concat P xs ys h.1 k)

-- The contents of a line.
abbrev pub HasTexts : (ℕ → Type 0) → Line → Type 0
HasTexts P ruler = Unit
HasTexts P empty = Unit
HasTexts P (title n content) = All P content
HasTexts P (bullet content) = All P content
HasTexts P (numbered content) = All P content
HasTexts P (regular content) = All P content

abbrev pub AllSome : (ℕ → Type 0) → Option (List ℕ) → Type 0
AllSome P none = Unit
AllSome P (some s) = All P s

module _ (P : ℕ → Type 0) where
  All-onto_first :
      (c : ℕ) (ls : List (List ℕ)) → P c → All (All P) ls → All (All P) (onto_first c ls)
  All-onto_first c [] h k = ((h, tt), tt)
  All-onto_first c (l ∷ ls) h k = ((h, k.0), k.1)

  pub All-split_lines : (s : List ℕ) → All P s → All (All P) (split_lines s)
  unfolding split_lines
  All-split_lines [] h = (tt, tt)
  All-split_lines (c ∷ s) h = elim (Bool-cases (c == 10)) [
    | inl e ↦ rw e (tt, All-split_lines s h.1)
    | inr e ↦ rw e (All-onto_first c (split_lines s) h.0 (All-split_lines s h.1))
  ]

  pub All-skip_spaces : (s : List ℕ) → All P s → All P (skip_spaces s)
  unfolding skip_spaces
  All-skip_spaces [] h = tt
  All-skip_spaces (c ∷ s) h = elim (Bool-cases (is_space_code c)) [
    | inl e ↦ rw e (All-skip_spaces s h.1)
    | inr e ↦ rw e h
  ]

  All-keep_before : (c : ℕ) (s : List ℕ) → P c → All P s → All P (keep_before c s)
  All-keep_before c [] h k = elim (Bool-cases (is_space_code c)) [
    | inl e ↦ rw e tt
    | inr e ↦ rw e (h, tt)
  ]
  All-keep_before c (d ∷ s) h k = (h, k)

  pub All-strip_end : (s : List ℕ) → All P s → All P (strip_end s)
  unfolding strip_end
  All-strip_end [] h = tt
  All-strip_end (c ∷ s) h = All-keep_before c (strip_end s) h.0 (All-strip_end s h.1)

  pub All-after_spaces : (s : List ℕ) → All P s → AllSome P (after_spaces s)
  unfolding after_spaces
  All-after_spaces [] h = tt
  All-after_spaces (c ∷ s) h = elim (Bool-cases (is_space_code c)) [
    | inl e ↦ rw e (All-skip_spaces s h.1)
    | inr e ↦ rw e tt
  ]

  All-bullet_of : (s : List ℕ) → All P s → AllSome P (bullet_of s)
  unfolding bullet_of
  All-bullet_of [] h = tt
  All-bullet_of (c ∷ s) h = elim (Bool-cases ((c == b'-') || (c == b'*') || (c == b'+'))) [
    | inl e ↦ rw e (All-after_spaces s h.1)
    | inr e ↦ rw e tt
  ]

  All-number_after :
      (is_digit : ℕ → Bool) (read : Bool) (s : List ℕ)
      → All P s
      → AllSome P (number_after is_digit read s)
  unfolding number_after
  All-number_after is_digit read [] h = tt
  All-number_after is_digit read (c ∷ s) h = elim (Bool-cases (is_digit c)) [
    | inl e ↦ rw e (All-number_after is_digit true s h.1)
    | inr e ↦ elim (Bool-cases (read && ((c == b'.') || (c == b')')))) [
      | inl f ↦ rw (e, f) (All-after_spaces s h.1)
      | inr f ↦ rw (e, f) tt
    ]
  ]

  abbrev TitleTexts : Option (ℕ × List ℕ) → Type 0
  TitleTexts none = Unit
  TitleTexts (some (n, content)) = All P content

  All-title_after : (n : ℕ) (s : List ℕ) → All P s → TitleTexts (title_after n s)
  unfolding title_after
  All-title_after n [] h = tt
  All-title_after n (c ∷ s) h = elim (Bool-cases (c == b'#')) [
    | inl e ↦ rw e (All-title_after (n + 1) s h.1)
    | inr e ↦ elim (Bool-cases (leb 1 n && leb n 4)) [
      | inl f ↦ rw (e, f) (go (after_spaces (c ∷ s)) (All-after_spaces (c ∷ s) h))
      | inr f ↦ rw (e, f) tt
    ]
  ]
    where
      go : (o : Option (List ℕ)) → AllSome P o → TitleTexts (option_map (λ content. (n, content)) o)
      go none k = tt
      go (some content) k = k

  pub HasTexts-classify :
      (is_digit : ℕ → Bool) (s : List ℕ) → All P s → HasTexts P (classify is_digit s)
  unfolding classify
  HasTexts-classify is_digit s h = elim (Bool-cases (is_rule s)) [
    | inl e ↦ rw e tt
    | inr e ↦ rw e (titled (title_after 0 s) (All-title_after 0 s h))
  ]
    where
      of_text : (t : List ℕ) → All P t → HasTexts P (text_line is_digit t)
      of_text [] k = tt
      of_text (c ∷ t) k = k

      numbers :
          (o : Option (List ℕ))
          → AllSome P o
          → HasTexts P (elim o [ some content ↦ numbered content | none ↦ text_line is_digit s ])
      numbers none k = of_text s h
      numbers (some content) k = k

      bullets :
          (o : Option (List ℕ))
          → AllSome P o
          → HasTexts P (elim o [
            | some content ↦ bullet content
            | none ↦ elim (number_after is_digit false s) [
              | some content ↦ numbered content
              | none ↦ text_line is_digit s
            ]
          ])
      bullets none k = numbers (number_after is_digit false s) (All-number_after is_digit false s h)
      bullets (some content) k = k

      titled :
          (o : Option (ℕ × List ℕ))
          → TitleTexts o
          → HasTexts P
              (elim o [ some (n, content) ↦ title n content | none ↦ list_line is_digit s ])
      titled none k = bullets (bullet_of s) (All-bullet_of s h)
      titled (some (n, content)) k = k
