-- ===== src/Frontend/Menu/Opening.antt =====
-- When the menu of frontend/src/components/Header.tsx is open.
use cosmosvote.Prelude.{
  ◌≡◌, refl, ◌∙◌, Bool, true, false, not, ◌&&◌, List, [], ◌∷◌, arith, js, ◌===◌, if◌then◌else◌,
}
use cosmosvote.Frontend.Menu.{
  Header, closed_header, Event, key_down, mouse_down, viewport, hamburger_click, link_click,
  menu_disconnect, menu_connect, handle_key_down, handle_click, call, step, run,
}

-- The events that leave the menu closed, whatever it was.
pub closes : Event → Bool
closes (key_down key) = key === js "Escape"
closes (mouse_down in_menu in_hamburger) = not in_menu && not in_hamburger
closes (viewport matches) = matches
closes link_click = true
closes menu_disconnect = true
closes menu_connect = true
closes _ = false

pub is_toggle : Event → Bool
is_toggle hamburger_click = true
is_toggle _ = false

-- Whether the button was clicked an odd number of times since an event that closes the menu.
pub odd_clicks : List Event → Bool
odd_clicks [] = false
odd_clicks (e ∷ earlier) =
    let before = odd_clicks earlier in
    if closes e then false else if is_toggle e then not before else before

step_open :
    (e : Event) (h : Header)
    → (step e h).menu_open
      ≡ (if closes e then false else if is_toggle e then not h.menu_open else h.menu_open)
unfolding step handle_key_down handle_click call closes is_toggle
step_open e h = ground arith

-- The menu is open exactly if its button was clicked an odd number of times since the last event that
-- closes it: Escape, a press outside, a wide viewport, a link or a button in it.
pub menu_open_lem : (events : List Event) → (run events).menu_open ≡ odd_clicks events
unfolding run odd_clicks closed_header
menu_open_lem [] = refl
menu_open_lem (e ∷ earlier) = step_open e (run earlier) ∙ rw (menu_open_lem earlier) refl
