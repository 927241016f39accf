-- ===== src/Prelude/Paging.antt =====
-- A log read page by page: a server that answers a cursor by the next 50 records behind it, and no cursor
-- by the first 50. The cursor is the identifier of the last record seen, or "now" before the first.

use mathlib.Core.Path.{◌≡◌, refl, ap, sym, subst, ◌∙◌}
use mathlib.Core.Logic.{◌≢◌, inl, inr}
use mathlib.Core.Bool.{not}
use mathlib.Core.Option.{Option, none, some}
use mathlib.Core.List.{List, [], ◌∷◌, ◌++◌}
use native.Mathlib.Omega.{arith}
use cosmosvote.Prelude.Tests.{if◌then◌else◌}
use cosmosvote.Prelude.Lists.{take, In, In-append_left, All, All-In, HasDistinct}
use cosmosvote.Prelude.Text.{JsString, js, ◌===◌, ===_iff, ===_refl}
use cosmosvote.Prelude.Results.{Result, ok}

-- What the source asks the server for.
abbrev pub asked_for : JsString → Option JsString
asked_for cursor = if not (cursor === js "now") then some cursor else none

module _ {A : Type 0} (id : A → JsString) where
  -- The identifier of the last record, or the cursor before the first.
  abbrev pub last_of : JsString → List A → JsString
  last_of cursor [] = cursor
  last_of cursor (r ∷ rs) = last_of (id r) rs

  unfoldable pub after : JsString → List A → List A
  after cursor [] = []
  after cursor (r ∷ rs) = if id r === cursor then rs else after cursor rs

  unfoldable pub serve {ℓ} : {E : Type ℓ} → List A → Option JsString → Result E (List A)
  unfolding after
  serve log none = ok (take 50 log)
  serve log (some cursor) = ok (take 50 (after cursor log))

  pub last_of-append :
      (c : JsString) (xs ys : List A) → last_of c (xs ++ ys) ≡ last_of (last_of c xs) ys
  last_of-append c [] ys = refl
  last_of-append c (x ∷ xs) ys = last_of-append (id x) xs ys

  last_of-In : (x : A) (xs : List A) → (r : A) × In r (x ∷ xs) × (last_of (id x) xs ≡ id r)
  last_of-In x [] = (x, inl refl, refl)
  last_of-In x (y ∷ ys) = let (r, m, e) = last_of-In y ys in (r, inr m, e)

  after-last_of :
      (x : A) (xs ys : List A)
      → HasDistinct id (x ∷ xs ++ ys)
      → after (last_of (id x) xs) (x ∷ xs ++ ys) ≡ ys
  unfolding after
  after-last_of x [] ys h = rw (===_refl (id x))
  after-last_of x (y ∷ zs) ys h =
      let (r, m, e) = last_of-In y zs in
      let apart : id x ≢ last_of (id y) zs = λ same.
        All-In (λ q. id x ≢ id q) (y ∷ zs ++ ys) h.0 r (In-append_left r (y ∷ zs) ys m)
          (same ∙ e) in
      ground (arith, ===_iff (id x) (last_of (id y) zs), after-last_of y zs ys h.1)

  -- With the records up to the cursor behind it, the server gives the next page of the rest.
  pub served {ℓ} :
      {E : Type ℓ} (log : List A)
      → HasDistinct id log
      → All (λ r. id r ≢ js "now") log
      → (seen rest : List A) → log ≡ seen ++ rest
      → serve {E = E} log (asked_for (last_of (js "now") seen)) ≡ ok (take 50 rest)
  unfolding serve
  served log distinct named [] rest e = rw (===_refl (js "now"), e)
  served log distinct named (x ∷ xs) rest e =
      let (r, m, same) = last_of-In x xs in
      let apart : last_of (id x) xs ≢ js "now" = λ now.
        All-In (λ q. id q ≢ js "now") log named r
          (subst (In r) (sym e) (In-append_left r (x ∷ xs) rest m)) (sym same ∙ now) in
      let found : after (last_of (id x) xs) log ≡ rest =
        subst (λ l. after (last_of (id x) xs) l ≡ rest) (sym e)
          (after-last_of x xs rest (subst (HasDistinct id) e distinct)) in
      ground (arith, ===_iff (last_of (id x) xs) (js "now"), ap (λ l. take 50 l) found)
