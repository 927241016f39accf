-- ===== src/Frontend/Language.antt =====
-- The language of the pages, by frontend/src/i18n.ts. The tables of the locale files are parameters, and so are
-- the language of the browser and the local storage.
pub mod Choice
mod Examples
use cosmosvote.Prelude.{
  Option, none, some, Bool, ◌&&◌, ◌||◌, List, [], ◌∷◌, JsString, js, ◌===◌, truthy, lookup, nullish,
  or_else, split, if◌then◌else◌, get_elem?, any,
}

abbrev pub Table : Type 0
Table = List (JsString × JsString)

-- `LOCALES`
pub record Locales : Type 0 where
  pub en : Table
  pub es : Table
  pub fr : Table

pub supported_locales : List (JsString × JsString × JsString)
supported_locales =
    (js "en", js "English", js "English")
    ∷ (js "es", js "Spanish", js "Español")
    ∷ (js "fr", js "French", js "Français")
    ∷ []

-- The properties that every object has from `Object.prototype`, which `in` finds too.
pub prototype_keys : List JsString
prototype_keys =
    js "constructor"
    ∷ js "hasOwnProperty"
    ∷ js "isPrototypeOf"
    ∷ js "propertyIsEnumerable"
    ∷ js "toLocaleString"
    ∷ js "toString"
    ∷ js "valueOf"
    ∷ js "__proto__"
    ∷ js "__defineGetter__"
    ∷ js "__defineSetter__"
    ∷ js "__lookupGetter__"
    ∷ js "__lookupSetter__"
    ∷ []

pub is_code : JsString → Bool
is_code s = s === js "en" || s === js "es" || s === js "fr"

-- `s in LOCALES`
pub in_locales : JsString → Bool
unfolding is_code prototype_keys
in_locales s = is_code s || any (λ k. k === s) prototype_keys

-- `localStorage.getItem(STORAGE_KEY)`, which throws where there is no storage.
pub data Storage : Type 0 where
  unavailable : Storage
  holds : Option JsString → Storage

pub stored_locale : Storage → Option JsString
unfolding in_locales
stored_locale unavailable = none
stored_locale (holds none) = none
stored_locale (holds (some stored)) =
    if truthy stored && in_locales stored then some stored else none

-- `navigator.language.split('-')[0]`
pub browser_lang : JsString → JsString
browser_lang language = or_else (get_elem? (split b'-' language) 0) []

pub browser_locale : JsString → JsString
unfolding browser_lang in_locales
browser_locale language =
    if in_locales (browser_lang language) then browser_lang language else js "en"

pub read_stored_locale : Storage → JsString → JsString
unfolding stored_locale browser_locale
read_stored_locale storage language = or_else (stored_locale storage) (browser_locale language)

-- The provider: its locale, what the storage holds, and the document's `lang`.
pub record Provider : Type 0 where
  pub locale : JsString
  pub storage : Storage
  pub document_lang : JsString

pub mount : Storage → JsString → Provider
unfolding read_stored_locale
mount storage language =
    let locale = read_stored_locale storage language in
    record { locale = locale; storage = storage; document_lang = locale }

pub stored : JsString → Storage → Storage
stored value unavailable = unavailable
stored value (holds old) = holds (some value)

pub set_locale : JsString → Provider → Provider
unfolding stored
set_locale next p = record { locale = next; storage = stored next p.storage; document_lang = next }

-- `LOCALES[locale]`: what `Object.prototype` has under a name has no messages.
pub messages : Locales → JsString → Table
messages locales locale =
    if locale === js "en"
    then locales.en
    else if locale === js "es"
    then locales.es
    else if locale === js "fr"
    then locales.fr
    else []

-- `t`
pub translate : Locales → Provider → JsString → JsString
unfolding messages
translate locales p key =
    or_else (nullish (lookup key (messages locales p.locale)) (lookup key locales.en)) key
