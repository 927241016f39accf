-- ===== src/Frontend/Theme/Memory.antt =====
-- What frontend/src/useTheme.ts remembers.
use cosmosvote.Prelude.{List, [], ◌∷◌, ◌++◌, ◌≡◌, ◌⊎◌, some, Bool, true}
use cosmosvote.Frontend.Theme.{Theme, theme_name, Storage, unavailable, holds, Window}

-- The storage holds the theme.
abbrev Holds : Storage → Theme → Type 0
Holds storage theme = storage ≡ holds (some (theme_name theme))

-- What a window and the storage agree on: the document shows the theme; and the storage, if there is one and
-- it did not refuse the window's last write, holds it, or else the last theme of which the window is still
-- to be told.
abbrev InStep : Window → Storage → List Theme → Bool → Type 0
InStep w storage events refused =
    (w.attribute ≡ some (theme_name w.theme))
    × ((storage ≡ unavailable)
        ⊎ (refused ≡ true)
        ⊎ Holds storage w.theme
        ⊎ ((front : List Theme) × (last : Theme) × (events ≡ front ++ last ∷ [])
            × Holds storage last))
