-- ===== src/Prelude/Lists.antt =====
-- Lists measured and cut by native numbers, filtered by Boolean tests, and quantified over.
use Prim.Native.Nat.{ℕ, zero, suc, ◌+◌, ◌-◌, ◌≤◌, min}
use mathlib.Core.Path.{◌≡◌, refl, ap, sym, subst, ◌∙◌}
use mathlib.Core.Logic.{◌≢◌, ◌⊎◌, inl, inr, ◌↔◌}
use mathlib.Core.Bool.{Bool, true, false}
use mathlib.Core.Option.{Option, none, some}
use mathlib.Core.List.{List, [], ◌∷◌, ◌++◌, map, append_assoc}
use native.Mathlib.Omega.{arith}
use cosmosvote.Prelude.Tests.{if◌then◌else◌, Bool-cases}

module _ {ℓ} {A : Type ℓ} where
  abbrev pub length : List A → ℕ
  length [] = 0
  length (x ∷ xs) = suc (length xs)

  abbrev pub get_elem? : List A → ℕ → Option A
  get_elem? [] i = none
  get_elem? (x ∷ xs) zero = some x
  get_elem? (x ∷ xs) (suc i) = get_elem? xs i

  abbrev pub take : ℕ → List A → List A
  take zero xs = []
  take (suc n) [] = []
  take (suc n) (x ∷ xs) = x ∷ take n xs

  abbrev pub drop : ℕ → List A → List A
  drop zero xs = xs
  drop (suc n) [] = []
  drop (suc n) (x ∷ xs) = drop n xs

  abbrev pub replicate : ℕ → A → List A
  replicate zero a = []
  replicate (suc n) a = a ∷ replicate n a

  -- `filter` by a Boolean test, as the source's callbacks are.
  abbrev pub select : (A → Bool) → List A → List A
  select p [] = []
  select p (x ∷ xs) = if p x then x ∷ select p xs else select p xs

  abbrev pub any : (A → Bool) → List A → Bool
  any p [] = false
  any p (x ∷ xs) = if p x then true else any p xs

  pub length-append : (xs ys : List A) → length (xs ++ ys) ≡ length xs + length ys
  length-append [] ys = omega arith
  length-append (x ∷ xs) ys = omega (arith, length-append xs ys)

  pub length-take : (n : ℕ) (xs : List A) → length (take n xs) ≡ min n (length xs)
  length-take zero xs = omega arith
  length-take (suc n) [] = omega arith
  length-take (suc n) (x ∷ xs) = omega (arith, length-take n xs)

  pub length-drop : (n : ℕ) (xs : List A) → length (drop n xs) ≡ length xs - n
  length-drop zero xs = omega arith
  length-drop (suc n) [] = omega arith
  length-drop (suc n) (x ∷ xs) = omega (arith, length-drop n xs)

  pub take-append-drop : (n : ℕ) (xs : List A) → take n xs ++ drop n xs ≡ xs
  take-append-drop zero xs = refl
  take-append-drop (suc n) [] = refl
  take-append-drop (suc n) (x ∷ xs) = rw (take-append-drop n xs)

  drop_none : (n : ℕ) → drop n [] ≡ []
  drop_none zero = refl
  drop_none (suc n) = refl

  pub drop-drop : (m n : ℕ) (xs : List A) → drop n (drop m xs) ≡ drop (m + n) xs
  drop-drop zero n xs = ap (λ k. drop k xs) (omega arith)
  drop-drop (suc m) n [] = drop_none n ∙ sym (drop_none (suc m + n))
  drop-drop (suc m) n (x ∷ xs) = drop-drop m n xs ∙ ap (λ k. drop k (x ∷ xs)) (add_suc m n)
    where
      add_suc : (m n : ℕ) → suc (m + n) ≡ suc m + n
      add_suc m n = omega arith

  take_none : (n : ℕ) → take n [] ≡ []
  take_none zero = refl
  take_none (suc n) = refl

  pub take-add : (m n : ℕ) (xs : List A) → take (m + n) xs ≡ take m xs ++ take n (drop m xs)
  take-add zero n xs = ap (λ k. take k xs) (omega arith)
  take-add (suc m) n [] = rw (take_none (suc m + n), take_none n) refl
  take-add (suc m) n (x ∷ xs) =
      ap (λ k. take k (x ∷ xs)) (add_suc m n) ∙ ap (λ ys. x ∷ ys) (take-add m n xs)
    where
      add_suc : (m n : ℕ) → suc m + n ≡ suc (m + n)
      add_suc m n = omega arith

  pub drop_all : (n : ℕ) (xs : List A) → length xs ≤ n → drop n xs ≡ []
  drop_all zero [] h = refl
  drop_all zero (x ∷ xs) h = absurd (omega arith)
  drop_all (suc n) [] h = refl
  drop_all (suc n) (x ∷ xs) h = drop_all n xs (omega arith)

  pub length-select-le : (p : A → Bool) (xs : List A) → length (select p xs) ≤ length xs
  length-select-le p [] = omega arith
  length-select-le p (x ∷ xs) = ground (arith, length-select-le p xs)

  pub select-append :
      (p : A → Bool) (xs ys : List A) → select p (xs ++ ys) ≡ select p xs ++ select p ys
  select-append p [] ys = refl
  select-append p (x ∷ xs) ys = ground (arith, select-append p xs ys)

module _ {A : Type 0} where
  -- Membership by recursion: it computes to sums, which the tactics take apart.
  abbrev pub In : A → List A → Type 0
  In a [] = ⊥
  In a (x ∷ xs) = (a ≡ x) ⊎ In a xs

  pub In-select : (p : A → Bool) (a : A) (xs : List A) → In a (select p xs) → In a xs × (p a ≡ true)
  In-select p a [] h = absurd h
  In-select p a (x ∷ xs) h = ground (arith, In-select p a xs)

  pub select-In : (p : A → Bool) (a : A) (xs : List A) → In a xs → p a ≡ true → In a (select p xs)
  select-In p a [] h e = absurd h
  select-In p a (x ∷ xs) h e = ground (arith, select-In p a xs)

-- A predicate on all elements, which computes to tuples.
abbrev pub All {ℓ κ} : {A : Type ℓ} → (A → Type κ) → List A → Type κ
All P [] = Unit
All P (x ∷ xs) = P x × All P xs

module _ {A : Type 0} (p : A → Bool) where
  -- A filter that keeps the length keeps the list, and every element passes.
  pub select_all : (xs : List A) → length (select p xs) ≡ length xs → select p xs ≡ xs
  select_all [] h = refl
  select_all (x ∷ xs) h = ground (arith, select_all xs, length-select-le p xs)

  pub select-eq_all : (xs : List A) → select p xs ≡ xs → (a : A) → In a xs → p a ≡ true
  select-eq_all xs h a m = (In-select p a xs (rw h m)).1

  pub select_pass : (xs : List A) → ((a : A) → In a xs → p a ≡ true) → select p xs ≡ xs
  select_pass [] h = refl
  select_pass (x ∷ xs) h = rw (h x (inl refl), select_pass xs (λ a m. h a (inr m)))

  pub any_iff : (xs : List A) → (any p xs ≡ true) ↔ ((a : A) × In a xs × (p a ≡ true))
  any_iff xs = (forth xs, λ (a, m, e). back xs a m e)
    where
      forth : (ys : List A) → any p ys ≡ true → (a : A) × In a ys × (p a ≡ true)
      forth [] h = cc
      forth (y ∷ ys) h = elim (Bool-cases (p y)) [
        | inl e ↦ (y, inl refl, e)
        | inr e ↦ let (a, m, q) = forth ys (rw e at h) in (a, inr m, q)
      ]

      back : (ys : List A) (a : A) → In a ys → p a ≡ true → any p ys ≡ true
      back [] a m e = absurd m
      back (y ∷ ys) a m e = ground (arith, back ys a)

module _ {A : Type 0} where
  pub In-append : (a : A) (xs ys : List A) → In a (xs ++ ys) → In a xs ⊎ In a ys
  In-append a [] ys m = inr m
  In-append a (x ∷ xs) ys m = ground (arith, In-append a xs ys)

  pub In-append_left : (a : A) (xs ys : List A) → In a xs → In a (xs ++ ys)
  In-append_left a [] ys m = absurd m
  In-append_left a (x ∷ xs) ys m = ground (arith, In-append_left a xs ys)

  pub In-append_right : (a : A) (xs ys : List A) → In a ys → In a (xs ++ ys)
  In-append_right a [] ys m = m
  In-append_right a (x ∷ xs) ys m = inr (In-append_right a xs ys m)

  pub All-In {κ} : (P : A → Type κ) (xs : List A) → All P xs → (a : A) → In a xs → P a
  All-In P [] h a m = absurd m
  All-In P (x ∷ xs) h a (inl e) = subst P (sym e) h.0
  All-In P (x ∷ xs) h a (inr m) = All-In P xs h.1 a m

  pub All-append {κ} : (P : A → Type κ) (xs ys : List A) → All P xs → All P ys → All P (xs ++ ys)
  All-append P [] ys hx hy = hy
  All-append P (x ∷ xs) ys hx hy = (hx.0, All-append P xs ys hx.1 hy)

  pub All-select {κ} :
      (P : A → Type κ) (p : A → Bool) (xs : List A) → All P xs → All P (select p xs)
  All-select P p [] h = h
  All-select P p (x ∷ xs) h = ground (arith, All-select P p xs)

  -- No two elements at different places have the same key.
  abbrev pub HasDistinct {κ} : {K : Type κ} → (A → K) → List A → Type κ
  HasDistinct key [] = Unit
  HasDistinct key (x ∷ xs) = All (λ y. key x ≢ key y) xs × HasDistinct key xs

  pub HasDistinct-select {κ} :
      {K : Type κ} (key : A → K) (p : A → Bool) (xs : List A)
      → HasDistinct key xs
      → HasDistinct key (select p xs)
  HasDistinct-select key p [] h = h
  HasDistinct-select key p (x ∷ xs) h =
      ground (arith, HasDistinct-select key p xs, All-select (λ y. key x ≢ key y) p xs)

  pub HasDistinct-append_one {κ} :
      {K : Type κ} (key : A → K) (xs : List A) (a : A)
      → HasDistinct key xs
      → All (λ x. key x ≢ key a) xs
      → HasDistinct key (xs ++ a ∷ [])
  HasDistinct-append_one key [] a h n = (tt, tt)
  HasDistinct-append_one key (x ∷ xs) a h n = (
    All-append (λ y. key x ≢ key y) xs (a ∷ []) h.0 (n.0, tt),
    HasDistinct-append_one key xs a h.1 n.1,
  )

abbrev pub cons_some {ℓ} : {A : Type ℓ} → Option A → List A → List A
cons_some none xs = xs
cons_some (some a) xs = a ∷ xs

module _ {A : Type 0} {B : Type 0} where
  -- `map` to what may be missing, and the missing ones dropped.
  abbrev pub choose : (A → Option B) → List A → List B
  choose f [] = []
  choose f (x ∷ xs) = cons_some (f x) (choose f xs)

  pub choose-append :
      (f : A → Option B) (xs ys : List A) → choose f (xs ++ ys) ≡ choose f xs ++ choose f ys
  choose-append f [] ys = refl
  choose-append f (x ∷ xs) ys = ground (arith, choose-append f xs ys)

  abbrev pub concat_map : (A → List B) → List A → List B
  concat_map f [] = []
  concat_map f (x ∷ xs) = f x ++ concat_map f xs

  pub concat_map-append :
      (f : A → List B) (xs ys : List A)
      → concat_map f (xs ++ ys) ≡ concat_map f xs ++ concat_map f ys
  concat_map-append f [] ys = refl
  concat_map-append f (x ∷ xs) ys =
      rw (concat_map-append f xs ys) (sym (append_assoc (f x) (concat_map f xs) (concat_map f ys)))

  pub In-concat_map :
      (f : A → List B) (b : B) (xs : List A)
      → In b (concat_map f xs)
      → (a : A) × In a xs × In b (f a)
  In-concat_map f b [] m = absurd m
  In-concat_map f b (x ∷ xs) m = elim (In-append b (f x) (concat_map f xs) m) [
    | inl h ↦ (x, inl refl, h)
    | inr h ↦ let (a, k, l) = In-concat_map f b xs h in (a, inr k, l)
  ]

  pub concat_map-In :
      (f : A → List B) (b : B) (xs : List A) (a : A) → In a xs → In b (f a) → In b (concat_map f xs)
  concat_map-In f b [] a m h = absurd m
  concat_map-In f b (x ∷ xs) a (inl e) h =
      In-append_left b (f x) (concat_map f xs) (subst (λ y. In b (f y)) e h)
  concat_map-In f b (x ∷ xs) a (inr m) h =
      In-append_right b (f x) (concat_map f xs) (concat_map-In f b xs a m h)

  pub In-map : (f : A → B) (b : B) (xs : List A) → In b (map f xs) → (a : A) × In a xs × (b ≡ f a)
  In-map f b [] m = absurd m
  In-map f b (x ∷ xs) (inl e) = (x, inl refl, e)
  In-map f b (x ∷ xs) (inr m) = let (a, k, e) = In-map f b xs m in (a, inr k, e)

  pub map-In : (f : A → B) (a : A) (xs : List A) → In a xs → In (f a) (map f xs)
  map-In f a [] m = absurd m
  map-In f a (x ∷ xs) (inl e) = inl (ap f e)
  map-In f a (x ∷ xs) (inr m) = inr (map-In f a xs m)

module _ {A : Type 0} where
  -- The first list reversed, in front of the second.
  abbrev pub reverse_onto : List A → List A → List A
  reverse_onto [] ys = ys
  reverse_onto (x ∷ xs) ys = reverse_onto xs (x ∷ ys)
