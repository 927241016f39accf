-- ===== src/Frontend/Theme.antt =====
-- frontend/src/useTheme.ts in the windows of one browser: each has its theme and the attribute on its
-- document, and they share the local storage, which may be unavailable.
pub mod Memory
mod Examples
use cosmosvote.Prelude.{
  not, List, [], ◌∷◌, ◌++◌, ◌≡◌, Option, none, some, Bool, true, false, JsString, js, ◌===◌,
  or_else, if◌then◌else◌,
}

pub data Theme : Type 0 where
  light dark : Theme

pub theme_name : Theme → JsString
theme_name light = js "light"
theme_name dark = js "dark"

-- `value === 'light' || value === 'dark'`
pub theme_of : JsString → Option Theme
theme_of value =
    if value === js "light" then some light else if value === js "dark" then some dark else none

-- The storage: unavailable, or with what it holds under the key.
pub data Storage : Type 0 where
  unavailable : Storage
  holds : Option JsString → Storage

pub stored_theme : Storage → Option Theme
unfolding theme_of
stored_theme unavailable = none
stored_theme (holds none) = none
stored_theme (holds (some value)) = theme_of value

pub resolve_initial_theme : (prefers_dark : Bool) → Storage → Theme
unfolding stored_theme
resolve_initial_theme prefers_dark storage =
    or_else (stored_theme storage) (if prefers_dark then dark else light)

-- The browser accepts a write or, for want of room, refuses it; a failure is ignored.
pub persist_theme : (accepted : Bool) → Theme → Storage → Storage
unfolding theme_name
persist_theme accepted theme unavailable = unavailable
persist_theme true theme (holds value) = holds (some (theme_name theme))
persist_theme false theme (holds value) = holds value

pub record Window : Type 0 where
  pub theme : Theme
  pub attribute : Option JsString

-- The effect that runs when the theme has changed: `applyTheme` and `persistTheme`.
pub theme_effect : (accepted : Bool) → Window → Storage → Window × Storage
unfolding theme_name persist_theme
theme_effect accepted w storage =
    (record w { attribute = some (theme_name w.theme) }, persist_theme accepted w.theme storage)

-- The first render of a window and its effect.
pub mount : (accepted prefers_dark : Bool) → Storage → Window × Storage
unfolding resolve_initial_theme theme_effect
mount accepted prefers_dark storage =
    theme_effect accepted
      (record { theme = resolve_initial_theme prefers_dark storage; attribute = none }) storage

-- `setTheme` with a function of the theme before. The effect runs only if the theme has changed.
pub same_theme : Theme → Theme → Bool
same_theme light light = true
same_theme dark dark = true
same_theme _ _ = false

pub set_theme : (accepted : Bool) → (Theme → Theme) → Window → Storage → Window × Storage
unfolding same_theme theme_effect
set_theme accepted value w storage =
    let next = value w.theme in
    if same_theme next w.theme
    then (w, storage)
    else theme_effect accepted (record w { theme = next }) storage

pub toggled : Theme → Theme
toggled light = dark
toggled dark = light

pub toggle_theme : (accepted : Bool) → Window → Storage → Window × Storage
unfolding set_theme toggled
toggle_theme accepted = set_theme accepted toggled

-- The theme that the handler of the `storage` event sets: the event's key is the theme's or not, and its new
-- value may be null.
pub told_theme : (is_theme_key : Bool) → Option JsString → Theme → Theme
unfolding theme_of
told_theme false value theme = theme
told_theme true none theme = theme
told_theme true (some value) theme = or_else (theme_of value) theme

pub storage_event :
    (accepted is_theme_key : Bool) → Option JsString → Window → Storage → Window × Storage
unfolding set_theme told_theme
storage_event accepted is_theme_key value w storage =
    set_theme accepted (told_theme is_theme_key value) w storage

-- Whether the last write of the window was refused, after a change of its theme to `next`.
pub refused_after : (accepted : Bool) (next : Theme) → Window → (refused : Bool) → Bool
unfolding same_theme
refused_after accepted next w refused = if same_theme next w.theme then refused else not accepted

-- What happens to a window: its own changes, the writes of other windows, and the events that tell of
-- these, which arrive later and in order. Listed are the events that have not arrived, by their themes,
-- and whether the last write of the window was refused.
pub data Reach (prefers_dark : Bool) (before : Storage)
    : Window → Storage → List Theme → Bool → Type 0 where
  mounted :
      {w : Window} {storage : Storage} (accepted : Bool)
      → (w, storage) ≡ mount accepted prefers_dark before
      → Reach prefers_dark before w storage [] (not accepted)
  changed :
      {v w : Window} {storage storage' : Storage} {events : List Theme} {refused : Bool}
      (accepted : Bool) (value : Theme → Theme)
      → Reach prefers_dark before v storage events refused
      → (w, storage') ≡ set_theme accepted value v storage
      → Reach prefers_dark before w storage' events
          (refused_after accepted (value v.theme) v refused)
  written :
      {v : Window} {storage : Storage} {events : List Theme} {refused : Bool}
      {old : Option JsString} (theme : Theme)
      → Reach prefers_dark before v storage events refused
      → storage ≡ holds old
      → Reach prefers_dark before v (holds (some (theme_name theme))) (events ++ theme ∷ []) refused
  told :
      {v w : Window} {storage storage' : Storage} {theme : Theme} {events : List Theme}
      {refused : Bool} (accepted : Bool)
      → Reach prefers_dark before v storage (theme ∷ events) refused
      → (w, storage') ≡ storage_event accepted true (some (theme_name theme)) v storage
      → Reach prefers_dark before w storage' events (refused_after accepted theme v refused)
