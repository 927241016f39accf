-- ===== src/Frontend/Language/Examples.antt =====
-- Two translations, of frontend/src/i18n.ts.
use cosmosvote.Prelude.{◌≡◌, refl, none, [], ◌∷◌, js, ◌===◌, lookup}
use cosmosvote.Frontend.Language.{Locales, holds, Provider, mount, set_locale, messages, translate}

abbrev two_tables : Locales
two_tables = record {
  en = (js "vote", js "Vote") ∷ (js "search", js "Search") ∷ [];
  es = (js "vote", js "Votar") ∷ [];
  fr = [];
}

abbrev fresh : Provider
fresh = mount (holds none) (js "en-GB")

-- The second key is not in the Spanish table.
translate_test :
    let p = set_locale (js "es") fresh in
    (translate two_tables p (js "vote") ≡ js "Votar")
    × (translate two_tables p (js "search") ≡ js "Search")
unfolding translate messages set_locale lookup js ◌===◌
translate_test = (refl, refl)
