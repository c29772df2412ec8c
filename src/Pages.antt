-- ===== src/Pages.antt =====
-- The logic behind the pages of src/pages; the widgets themselves are Gradio's.
pub mod Dashboard
pub mod Assistant
pub mod Markdown
pub mod Values
pub mod History
pub mod Export
mod Samples
