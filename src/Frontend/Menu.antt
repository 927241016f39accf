-- ===== src/Frontend/Menu.antt =====
-- frontend/src/components/Header.tsx: the menu and the events that open and close it.
pub mod Opening
mod Examples
use cosmosvote.Prelude.{
  Bool, true, false, not, ◌&&◌, List, [], ◌∷◌, ◌++◌, JsString, js, ◌===◌, if◌then◌else◌,
}

-- The component's state, whether the menu's button has the focus, and what the header has called.
pub data Call : Type 0 where
  on_connect on_disconnect on_toggle_theme : Call

pub record Header : Type 0 where
  pub menu_open : Bool
  pub show_full_address : Bool
  pub hamburger_focused : Bool
  pub calls : List Call

unfoldable pub closed_header : Header
closed_header = record {
  menu_open = false;
  show_full_address = false;
  hamburger_focused = false;
  calls = [];
}

-- A key, a press of the mouse and whether it falls into the menu or on its button, a change of the
-- viewport and whether it is now wide, and the clicks.
pub data Event : Type 0 where
  key_down : (key : JsString) → Event
  mouse_down : (in_menu in_hamburger : Bool) → Event
  viewport : (matches : Bool) → Event
  hamburger_click link_click menu_disconnect menu_connect : Event
  disconnect_click connect_click theme_click address_click : Event

unfoldable pub handle_key_down : JsString → Header → Header
handle_key_down key h =
    if (key === js "Escape") && h.menu_open
    then record h { menu_open = false; hamburger_focused = true }
    else h

unfoldable pub handle_click : Bool → Bool → Header → Header
handle_click in_menu in_hamburger h =
    if h.menu_open && not in_menu && not in_hamburger then record h { menu_open = false } else h

unfoldable pub call : Call → Header → Header
call c h = record h { calls = h.calls ++ c ∷ [] }

unfoldable pub step : Event → Header → Header
unfolding handle_key_down handle_click call
step (key_down key) h = handle_key_down key h
step (mouse_down in_menu in_hamburger) h = handle_click in_menu in_hamburger h
step (viewport matches) h = if matches then record h { menu_open = false } else h
step hamburger_click h = record h { menu_open = not h.menu_open }
step link_click h = record h { menu_open = false }
step menu_disconnect h = record (call on_disconnect h) { menu_open = false }
step menu_connect h = record (call on_connect h) { menu_open = false }
step disconnect_click h = call on_disconnect h
step connect_click h = call on_connect h
step theme_click h = call on_toggle_theme h
step address_click h = record h { show_full_address = not h.show_full_address }

-- Events in a row, the latest one first.
unfoldable pub run : List Event → Header
unfolding step closed_header
run [] = closed_header
run (e ∷ earlier) = step e (run earlier)
