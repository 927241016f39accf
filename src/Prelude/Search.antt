-- ===== src/Prelude/Search.antt =====
-- One string inside another.
use mathlib.Core.Path.{◌≡◌, refl, sym, ap}
use mathlib.Core.Logic.{◌↔◌, inl, inr}
use mathlib.Core.Bool.{Bool, true}
use mathlib.Core.List.{[], ◌∷◌, ◌++◌}
use native.Mathlib.Omega.{arith}
use cosmosvote.Prelude.Tests.{if◌then◌else◌, Bool-cases}
use cosmosvote.Prelude.Lists.{length, drop}
use cosmosvote.Prelude.Text.{JsString, starts_with, starts_with-append, append-drop}

-- `includes`
abbrev pub contains : JsString → JsString → Bool
contains [] word = starts_with [] word
contains (c ∷ s) word =
    let rest = contains s word in if starts_with (c ∷ s) word then true else rest

starts_with-front :
    (s word : JsString) → starts_with s word ≡ true → (back : JsString) × (s ≡ word ++ back)
starts_with-front s word h = (drop (length word) s, sym (append-drop s word h))

pub contains_iff :
    (s word : JsString)
    → (contains s word ≡ true)
      ↔ ((front : JsString) × (back : JsString) × (s ≡ front ++ word ++ back))
contains_iff s word = (forth s, λ (front, back, e). rw e (back_to front back))
  where
    forth :
        (s : JsString)
        → contains s word ≡ true
        → (front : JsString) × (back : JsString) × (s ≡ front ++ word ++ back)
    forth [] h = let (back, e) = starts_with-front [] word h in ([], back, e)
    forth (c ∷ s) h = elim (Bool-cases (starts_with (c ∷ s) word)) [
      | inl e ↦ let (back, p) = starts_with-front (c ∷ s) word e in ([], back, p)
      | inr e ↦ let (front, back, p) = forth s (rw e at h) in (c ∷ front, back, ap (λ t. c ∷ t) p)
    ]

    back_to : (front back : JsString) → contains (front ++ word ++ back) word ≡ true
    back_to [] back = at_front (word ++ back) (starts_with-append word back)
      where
        at_front : (s : JsString) → starts_with s word ≡ true → contains s word ≡ true
        at_front [] h = h
        at_front (c ∷ s) h = rw h refl
    back_to (c ∷ front) back = ground (arith, back_to front back)
