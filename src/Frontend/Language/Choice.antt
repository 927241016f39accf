-- ===== src/Frontend/Language/Choice.antt =====
-- What frontend/src/i18n.ts remembers and what it falls back on.
use cosmosvote.Prelude.{
  ◌≡◌, refl, ap, ◌∙◌, ◌⊎◌, inl, inr, Option, none, some, true, arith, JsString, truthy, lookup,
  Option-cases,
}
use cosmosvote.Frontend.Language.{
  Locales, is_code, in_locales, holds, stored_locale, read_stored_locale, Provider, mount, stored,
  set_locale, messages, translate,
}

-- A supported locale that is chosen where there is a storage is the locale of the next page, whatever
-- the language of the browser, and the document is in it at once.
pub mount-set_locale :
    (p : Provider) (next language : JsString) (old : Option JsString)
    → p.storage ≡ holds old
    → is_code next ≡ true
    → truthy next ≡ true
    → ((mount (set_locale next p).storage language).locale ≡ next)
      × ((set_locale next p).document_lang ≡ next)
unfolding mount set_locale stored read_stored_locale stored_locale in_locales
mount-set_locale p next language old have code named = (ground (arith, have, code, named), refl)

-- A key that English has is never shown as such: its text is the locale's or else the English one.
pub translate_outcome :
    (locales : Locales) (p : Provider) (key english : JsString)
    → lookup key locales.en ≡ some english
    → (lookup key (messages locales p.locale) ≡ some (translate locales p key))
      ⊎ ((lookup key (messages locales p.locale) ≡ none) × (translate locales p key ≡ english))
unfolding translate
translate_outcome locales p key english h =
    elim (Option-cases (lookup key (messages locales p.locale))) [
      | inl e ↦ inr (e, rw (e, h) refl)
      | inr (text, e) ↦ inl (e ∙ ap some (rw e refl))
    ]
