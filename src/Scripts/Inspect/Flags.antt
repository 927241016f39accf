-- ===== src/Scripts/Inspect/Flags.antt =====
-- What scripts/inspect-state.js reads from a command line.
use cosmosvote.Prelude.{
  ◌≡◌, refl, ap, ◌∙◌, true, false, not, List, [], ◌∷◌, ◌++◌, map, arith, JsString, starts_with,
  reverse_onto, select-append, All, concat_map,
}
use cosmosvote.Scripts.Inspect.{
  FlagValue, text, dashes, is_value, parse_from, parse_flags, plain_args,
}

-- A flag with its value, as they are written.
pub record Written : Type 0 where
  pub name : JsString
  pub value : JsString

abbrev pub words_of : Written → List JsString
words_of w = w.name ∷ w.value ∷ []

abbrev pub entry_of : Written → JsString × FlagValue
entry_of w = (w.name, text w.value)

-- The name begins with two dashes, and the value is not empty and does not.
abbrev pub IsWritten : Written → Type 0
IsWritten w = (starts_with w.name dashes ≡ true) × (is_value w.value ≡ true)

abbrev pub IsWord : JsString → Type 0
IsWord s = starts_with s dashes ≡ false

skip_word :
    (s : JsString) (argv : List JsString) (flags : List (JsString × FlagValue))
    → IsWord s
    → parse_from (s ∷ argv) flags ≡ parse_from argv flags
unfolding parse_from
skip_word s [] flags h = rw h refl
skip_word s (b ∷ argv) flags h = rw h refl

parse_from-words :
    (words argv : List JsString) (flags : List (JsString × FlagValue))
    → All IsWord words
    → parse_from (words ++ argv) flags ≡ parse_from argv flags
parse_from-words [] argv flags h = refl
parse_from-words (w ∷ words) argv flags h =
    skip_word w (words ++ argv) flags h.0 ∙ parse_from-words words argv flags h.1

parse_from-written :
    (ws : List Written) (flags : List (JsString × FlagValue))
    → All IsWritten ws
    → parse_from (concat_map words_of ws) flags ≡ reverse_onto (map entry_of ws) flags
unfolding parse_from
parse_from-written [] flags h = refl
parse_from-written (w ∷ ws) flags ((a, b), h) =
    rw (a, b) (parse_from-written ws (entry_of w ∷ flags) h)

plain-append : (xs ys : List JsString) → plain_args (xs ++ ys) ≡ plain_args xs ++ plain_args ys
unfolding plain_args
plain-append xs ys = select-append (λ a. not (starts_with a dashes)) xs ys

plain-words : (words : List JsString) → All IsWord words → plain_args words ≡ words
unfolding plain_args
plain-words [] h = refl
plain-words (w ∷ words) h = rw h.0 (ap (λ ws. w ∷ ws) (plain-words words h.1))

plain-written :
    (ws : List Written)
    → All IsWritten ws
    → plain_args (concat_map words_of ws) ≡ map (λ w. w.value) ws
unfolding plain_args
plain-written [] h = refl
plain-written (w ∷ ws) ((a, b), h) =
    rw (a, value_plain w.value b) (ap (λ vs. w.value ∷ vs) (plain-written ws h))
  where
    value_plain : (v : JsString) → is_value v ≡ true → starts_with v dashes ≡ false
    value_plain v e = ground arith

-- Words that do not begin with two dashes and then flags with values are read as these flags, the
-- last one first; the plain arguments are the words and, behind them, the flags' values.
pub parse_flags-written :
    (words : List JsString) (ws : List Written)
    → All IsWord words
    → All IsWritten ws
    → let argv = words ++ concat_map words_of ws in
      (parse_flags argv ≡ reverse_onto (map entry_of ws) [])
      × (plain_args argv ≡ words ++ map (λ w. w.value) ws)
unfolding parse_flags
parse_flags-written words ws hw hs = (
  parse_from-words words (concat_map words_of ws) [] hw ∙ parse_from-written ws [] hs,
  plain-append words (concat_map words_of ws) ∙ rw (plain-words words hw, plain-written ws hs) refl,
)
