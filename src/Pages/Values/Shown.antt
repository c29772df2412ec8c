-- ===== src/Pages/Values/Shown.antt =====
-- What `_event_data_summary` of src/pages/scenario_dashboard/export_html.py shows.
use agent_server_platform.Base.{
  ℕ, zero, suc, ◌≤◌, String, ◌≡◌, Bool, false, ◌||◌, ◌==◌, string_eq, length, All, contains,
  text_length, text_length-prefix, Bool-cases, inl, inr, arith,
}
use agent_server_platform.Pages.Values.{
  Fields, empty, field, value_text, id_keys, is_null, is_hidden, shown_fields,
}

length-shown_fields-le : (n : ℕ) (fs : Fields) → length (shown_fields n fs) ≤ n
unfolding shown_fields
length-shown_fields-le zero fs = ground arith
length-shown_fields-le (suc n) empty = ground arith
length-shown_fields-le (suc n) (field k v fs) =
    ground (arith, length-shown_fields-le (suc n) fs, length-shown_fields-le n fs)

-- A part that may be shown.
abbrev pub IsShowable : String × String → Type 0
IsShowable (k, s) = (contains id_keys k ≡ false) × (text_length s ≤ 100)

first_refuted : (b c d : Bool) → ((b || c) || d) ≡ false → b ≡ false
first_refuted b c d h = ground arith

shown_fields-IsShowable : (n : ℕ) (fs : Fields) → All IsShowable (shown_fields n fs)
unfolding shown_fields is_hidden
shown_fields-IsShowable zero fs = tt
shown_fields-IsShowable (suc n) empty = tt
shown_fields-IsShowable (suc n) (field k v fs) = elim (Bool-cases (is_hidden k v)) [
  | inl hidden ↦ rw hidden (shown_fields-IsShowable (suc n) fs)
  | inr shown ↦ rw shown (
    (
      first_refuted (contains id_keys k) (is_null v) (value_text v == "") shown,
      text_length-prefix 100 (value_text v),
    ),
    shown_fields-IsShowable n fs,
  )
]

-- Of the fields of an event, at most as many as the bound are shown, none of them an identifier, each with
-- at most 100 characters.
pub shown_fields-bounds :
    (n : ℕ) (fs : Fields) → (length (shown_fields n fs) ≤ n) × All IsShowable (shown_fields n fs)
shown_fields-bounds n fs = (length-shown_fields-le n fs, shown_fields-IsShowable n fs)
