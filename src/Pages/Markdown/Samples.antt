-- ===== src/Pages/Markdown/Samples.antt =====
-- A heading, a script and a list, and the theorem at them.
use agent_server_platform.Base.{
  ℕ, ◌≡◌, refl, Bool, ◌&&◌, leb, some, List, [], ◌∷◌, All, nat_eq, all, is_space_code,
}
use native.Mathlib.Decide.{ℕ_discrete}
use agent_server_platform.Pages.Markdown.{
  ul, list, li, p, heading, opening, closing, newline, chars, strong, markdown_to_html,
}
use agent_server_platform.Pages.Markdown.WellFormed.Nesting.{walk}
use agent_server_platform.Pages.Markdown.WellFormed.Texts.{IsClean}
use agent_server_platform.Pages.Markdown.WellFormed.{markdown_to_html-IsWellFormed}

abbrev is_digit : ℕ → Bool
is_digit c = leb b'0' c && leb c b'9'

-- A heading, a strong passage with a tag, and a list.
abbrev text : List ℕ
text = b'#' ∷ b' ' ∷ b'h' ∷ 10 ∷ b'*' ∷ b'*' ∷ b'<' ∷ b'*' ∷ b'*' ∷ 10 ∷ b'-' ∷ b' ' ∷ b'a' ∷ []

run : markdown_to_html is_digit text ≡ (
    opening (heading 3)
    ∷ chars (b'h' ∷ [])
    ∷ closing (heading 3)
    ∷ newline
    ∷ opening p
    ∷ opening strong
    ∷ chars (b'&' ∷ b'l' ∷ b't' ∷ b';' ∷ [])
    ∷ closing strong
    ∷ closing p
    ∷ newline
    ∷ opening (list ul)
    ∷ newline
    ∷ opening li
    ∷ chars (b'a' ∷ [])
    ∷ closing li
    ∷ newline
    ∷ closing (list ul)
    ∷ [])
unfolding markdown_to_html nat_eq ℕ_discrete all is_space_code
run = refl

markdown_to_html-IsWellFormed_example :
    (walk (markdown_to_html is_digit text) [] ≡ some [])
    × All IsClean (markdown_to_html is_digit text)
markdown_to_html-IsWellFormed_example = markdown_to_html-IsWellFormed is_digit text
