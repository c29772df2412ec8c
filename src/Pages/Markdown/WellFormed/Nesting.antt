-- ===== src/Pages/Markdown/WellFormed/Nesting.antt =====
-- A walk over the tokens with the stack of the tags that are open.
use agent_server_platform.Base.{
  ℕ, zero, suc, ◌+◌, ◌≡◌, refl, ap, sym, ◌∙◌, Bool, true, false, Option, none, some, List, [], ◌∷◌,
  ◌++◌, ◌==◌, nat_eq, if◌then◌else◌, Option-cases, inl, inr, arith, length,
}
use agent_server_platform.Pages.Markdown.{
  Kind, ul, ol, Tag, list, li, p, strong, heading, Token, opening, closing, rule, newline, chars,
  Line, ruler, empty, title, bullet, numbered, regular, strong_at, inline_from, element, close_list,
  same_kind, open_list, append_line, append_lines, join_lines, lines_of, split_lines, escape,
  markdown_to_html,
}

abbrev pub same_tag : Tag → Tag → Bool
same_tag (list j) (list k) = same_kind j k
same_tag li li = true
same_tag p p = true
same_tag strong strong = true
same_tag (heading m) (heading n) = m == n
same_tag _ _ = false

-- Where a tag may stand.
abbrev pub may_open : Tag → List Tag → Bool
may_open (list k) [] = true
may_open p [] = true
may_open (heading n) [] = true
may_open li (list k ∷ []) = true
may_open strong (li ∷ st) = true
may_open strong (p ∷ st) = true
may_open strong (heading n ∷ st) = true
may_open _ _ = false

abbrev pub pop : Tag → List Tag → Option (List Tag)
pop t [] = none
pop t (s ∷ st) = if same_tag s t then some st else none

abbrev pub walk_token : Token → List Tag → Option (List Tag)
walk_token (opening t) st = if may_open t st then some (t ∷ st) else none
walk_token (closing t) st = pop t st
walk_token rule [] = some []
walk_token rule (t ∷ st) = none
walk_token newline st = some st
walk_token (chars cs) st = some st

abbrev pub then_walk : (List Tag → Option (List Tag)) → Option (List Tag) → Option (List Tag)
then_walk f none = none
then_walk f (some st) = f st

unfoldable pub walk : List Token → List Tag → Option (List Tag)
walk [] st = some st
walk (t ∷ ts) st = then_walk (walk ts) (walk_token t st)

walk-append :
    (xs ys : List Token) (st : List Tag) → walk (xs ++ ys) st ≡ then_walk (walk ys) (walk xs st)
unfolding walk
walk-append [] ys st = refl
walk-append (t ∷ xs) ys st = go (walk_token t st) (walk-append xs ys)
  where
    go :
        (o : Option (List Tag))
        → ((u : List Tag) → walk (xs ++ ys) u ≡ then_walk (walk ys) (walk xs u))
        → then_walk (walk (xs ++ ys)) o ≡ then_walk (walk ys) (then_walk (walk xs) o)
    go none ih = refl
    go (some u) ih = ih u

-- The content of a line leaves the stack as it is.
walk-inline_from :
    (k : ℕ) (s : List ℕ) (t : Tag) (st : List Tag)
    → may_open strong (t ∷ st) ≡ true
    → walk (inline_from k s) (t ∷ st) ≡ some (t ∷ st)
unfolding walk inline_from
walk-inline_from k [] t st h = refl
walk-inline_from (suc k) (c ∷ s) t st h = walk-inline_from k s t st h
walk-inline_from zero (c ∷ s) t st h = elim (Option-cases (strong_at (c ∷ s))) [
  | inl e ↦ rw (e, inline_from) (walk-inline_from zero s t st h)
  | inr (inner, e) ↦ rw (e, inline_from, h) (walk-inline_from (length inner + 3) s t st h)
]

same_tag_refl : (t : Tag) → same_tag t t ≡ true
same_tag_refl (list ul) = refl
same_tag_refl (list ol) = refl
same_tag_refl li = refl
same_tag_refl p = refl
same_tag_refl strong = refl
same_tag_refl (heading n) = ground arith

walk-element :
    (t : Tag) (content : List ℕ) (st : List Tag)
    → may_open t st ≡ true
    → may_open strong (t ∷ st) ≡ true
    → walk (element t content) st ≡ some st
unfolding walk element
walk-element t content st h k = rw h (
    walk-append (inline_from zero content) (closing t ∷ []) (t ∷ st)
    ∙ ap (then_walk (walk (closing t ∷ []))) (walk-inline_from zero content t st k)
    ∙ rw (same_tag_refl t) refl)

-- The same over the elements of `out`.
abbrev walks : List (List Token) → List Tag → Option (List Tag)
walks [] st = some st
walks (e ∷ es) st = then_walk (walks es) (walk e st)

walks-append :
    (ds es : List (List Token)) (st : List Tag)
    → walks (ds ++ es) st ≡ then_walk (walks es) (walks ds st)
walks-append [] es st = refl
walks-append (d ∷ ds) es st = go (walk d st) (walks-append ds es)
  where
    go :
        (o : Option (List Tag))
        → ((u : List Tag) → walks (ds ++ es) u ≡ then_walk (walks es) (walks ds u))
        → then_walk (walks (ds ++ es)) o ≡ then_walk (walks es) (then_walk (walks ds) o)
    go none ih = refl
    go (some u) ih = ih u

then_walk-some : (o : Option (List Tag)) → then_walk some o ≡ o
then_walk-some none = refl
then_walk-some (some u) = refl

walk-join_lines : (es : List (List Token)) (st : List Tag) → walk (join_lines es) st ≡ walks es st
unfolding walk join_lines
walk-join_lines [] st = refl
walk-join_lines (e ∷ []) st = sym (then_walk-some (walk e st))
walk-join_lines (e ∷ f ∷ es) st =
    walk-append e (newline ∷ join_lines (f ∷ es)) st ∙ go (walk e st) (walk-join_lines (f ∷ es))
  where
    go :
        (o : Option (List Tag))
        → ((u : List Tag) → walk (join_lines (f ∷ es)) u ≡ walks (f ∷ es) u)
        → then_walk (walk (newline ∷ join_lines (f ∷ es))) o ≡ then_walk (walks (f ∷ es)) o
    go none ih = refl
    go (some u) ih = ih u

-- The stack between two lines is the list that is open.
abbrev stack_of : Option Kind → List Tag
stack_of none = []
stack_of (some k) = list k ∷ []

walks-close_list : (o : Option Kind) → walks (close_list o) (stack_of o) ≡ some []
unfolding walk
walks-close_list none = refl
walks-close_list (some ul) = refl
walks-close_list (some ol) = refl

walks-open_list :
    (k : Kind) (o : Option Kind) → walks (open_list k o) (stack_of o) ≡ some (list k ∷ [])
unfolding walk
walks-open_list ul none = refl
walks-open_list ol none = refl
walks-open_list ul (some ul) = refl
walks-open_list ul (some ol) = refl
walks-open_list ol (some ul) = refl
walks-open_list ol (some ol) = refl

-- What is appended after a list was closed or opened.
walks_then :
    (ds : List (List Token)) (e : List Token) (st u v : List Tag)
    → walks ds st ≡ some u
    → walk e u ≡ some v
    → walks (ds ++ e ∷ []) st ≡ some v
walks_then ds e st u v h k = walks-append ds (e ∷ []) st ∙ rw (h, k) refl

walks-append_line :
    (o : Option Kind) (l : Line)
    → walks (append_line o l).0 (stack_of o) ≡ some (stack_of (append_line o l).1)
unfolding append_line walk
walks-append_line o ruler = walks_then (close_list o) _ (stack_of o) [] [] (walks-close_list o) refl
walks-append_line o (title n content) =
    walks_then (close_list o) _ (stack_of o) [] [] (walks-close_list o)
      (walk-element (heading (n + 2)) content [] refl refl)
walks-append_line o (bullet content) =
    walks_then (open_list ul o) _ (stack_of o) (list ul ∷ []) (list ul ∷ []) (walks-open_list ul o)
      (walk-element li content (list ul ∷ []) refl refl)
walks-append_line o (numbered content) =
    walks_then (open_list ol o) _ (stack_of o) (list ol ∷ []) (list ol ∷ []) (walks-open_list ol o)
      (walk-element li content (list ol ∷ []) refl refl)
walks-append_line o empty = walks_then (close_list o) _ (stack_of o) [] [] (walks-close_list o) refl
walks-append_line o (regular content) =
    walks_then (close_list o) _ (stack_of o) [] [] (walks-close_list o)
      (walk-element p content [] refl refl)

walks-append_lines :
    (o : Option Kind) (ls : List Line) → walks (append_lines o ls) (stack_of o) ≡ some []
unfolding append_lines
walks-append_lines o [] = walks-close_list o
walks-append_lines o (l ∷ ls) =
    let (out, open_after) = append_line o l in
    walks-append out (append_lines open_after ls) (stack_of o)
    ∙ ap (then_walk (walks (append_lines open_after ls))) (walks-append_line o l)
    ∙ walks-append_lines open_after ls

pub walk-markdown_to_html :
    (is_digit : ℕ → Bool) (s : List ℕ) → walk (markdown_to_html is_digit s) [] ≡ some []
unfolding walk markdown_to_html
walk-markdown_to_html is_digit [] = refl
walk-markdown_to_html is_digit (c ∷ s) =
    let ls = lines_of is_digit (split_lines (escape (c ∷ s))) in
    walk-join_lines (append_lines none ls) [] ∙ walks-append_lines none ls
