-- ===== src/Frontend/Menu/Examples.antt =====
-- A run of frontend/src/components/Header.tsx.
use cosmosvote.Prelude.{◌≡◌, refl, true, false, [], ◌∷◌, js, ◌===◌}
use cosmosvote.Frontend.Menu.{
  closed_header, key_down, mouse_down, hamburger_click, theme_click, handle_key_down, handle_click,
  call, step, run,
}

run_test :
    (run (theme_click ∷ hamburger_click ∷ key_down (js "Escape") ∷ hamburger_click ∷ [])).menu_open
    ≡ true
unfolding run step handle_key_down call closed_header js ◌===◌
run_test = refl

outside_test :
    (run (mouse_down true false ∷ mouse_down false false ∷ hamburger_click ∷ [])).menu_open ≡ false
unfolding run step handle_click closed_header
outside_test = refl
