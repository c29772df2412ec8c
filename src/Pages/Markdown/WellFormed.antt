-- ===== src/Pages/Markdown/WellFormed.antt =====
-- The tags of the output are nested, and its texts hold no markup.
pub mod Nesting
pub mod Lines
pub mod Texts
use agent_server_platform.Base.{
  ℕ, ◌≡◌, refl, Bool, true, false, not, ◌&&◌, Option, none, some, List, [], ◌∷◌, ◌==◌, nat_eq,
  if◌then◌else◌, All,
}
use agent_server_platform.Pages.Markdown.{
  Kind, Tag, list, li, p, strong, heading, Token, opening, closing, rule, newline, chars, same_kind,
  markdown_to_html,
}
use agent_server_platform.Pages.Markdown.WellFormed.Nesting.{walk, walk-markdown_to_html}
use agent_server_platform.Pages.Markdown.WellFormed.Texts.{IsClean, markdown_to_html-IsClean}

-- Whatever the text is, the output is a well-formed fragment: every tag that is opened is closed in the
-- right order and none is left open, list items stand in a list and in nothing else, lists,
-- paragraphs, headings and rules in nothing, strong passages not in one another; and no text in it holds
-- `<`, `>` or a quotation mark, so no markup of the input reaches the page.
pub markdown_to_html-IsWellFormed :
    (is_digit : ℕ → Bool) (s : List ℕ)
    → (walk (markdown_to_html is_digit s) [] ≡ some []) × All IsClean (markdown_to_html is_digit s)
markdown_to_html-IsWellFormed is_digit s =
    (walk-markdown_to_html is_digit s, markdown_to_html-IsClean is_digit s)
