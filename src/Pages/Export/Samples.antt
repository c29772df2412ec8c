-- ===== src/Pages/Export/Samples.antt =====
-- A name with a slash and spaces, and the theorem at it.
use native.Mathlib.Decide.{ℕ_discrete}
use agent_server_platform.Base.{
  ◌≢◌, All, head?, some, ℕ, ◌≤◌, ◌≡◌, refl, List, [], ◌∷◌, length, contains, is_space_code, nat_eq,
}
use agent_server_platform.Pages.Export.{
  is_forbidden, replace_runs, skip_underscores, drop_underscores, sanitize_filename,
}
use agent_server_platform.Pages.Export.FileName.{IsPlain, sanitize_filename-IsPlain}

abbrev name : List ℕ
name = b' ' ∷ b'a' ∷ b'/' ∷ b' ' ∷ b'b' ∷ b'_' ∷ []

sanitized_name : sanitize_filename name ≡ (b'a' ∷ b'_' ∷ b'b' ∷ [])
unfolding sanitize_filename is_forbidden replace_runs skip_underscores drop_underscores contains
    is_space_code nat_eq ℕ_discrete
sanitized_name = refl

sanitize_filename-IsPlain_example :
    All IsPlain (sanitize_filename name)
    × (head? (sanitize_filename name) ≢ some b'_')
    × (1 ≤ length (sanitize_filename name))
    × (length (sanitize_filename name) ≤ 40)
sanitize_filename-IsPlain_example = sanitize_filename-IsPlain name
