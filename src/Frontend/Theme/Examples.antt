-- ===== src/Frontend/Theme/Examples.antt =====
-- The theorem on frontend/src/useTheme.ts at a concrete window.
use cosmosvote.Prelude.{none, some, true}
use cosmosvote.Frontend.Theme.{
  dark, theme_name, Storage, holds, Window, mount, toggle_theme, storage_event,
}

-- A system that prefers dark, a storage without a theme, and one toggle.
abbrev first_window : Window × Storage
first_window = mount true true (holds none)

abbrev second_window : Window × Storage
second_window = toggle_theme true first_window.0 first_window.1

-- Another window writes dark, and this one is told.
abbrev third_window : Window × Storage
third_window =
    storage_event true true (some (theme_name dark)) second_window.0
      (holds (some (theme_name dark)))
