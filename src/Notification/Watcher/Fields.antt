-- ===== src/Notification/Watcher/Fields.antt =====
-- The ledger and the proposal that `parseEvent` of notification-service/src/watcher.ts takes from a record.
use cosmosvote.Prelude.{
  if◌then◌else◌, ℕ, All, ◌==◌, false, of_decimal, ◌⊎◌, inl, inr, ==_iff, Bool-cases, push_front,
  split, get_elem?, or_else, is_set, truthy, ap, ◌≡◌, refl, sym, ◌∙◌, subst, ◌↔◌, Option, none,
  some, List, [], ◌∷◌, ◌++◌, JsString,
}
use cosmosvote.Notification.Types.{JsNumber, num, nan, EventRecord}
use cosmosvote.Notification.Watcher.{first_value, first_part, ledger_of}

-- The front of an identifier: what stands before its first dash, or all of it.
abbrev pub IsFront : JsString → JsString → Type 0
IsFront id front =
    All (λ c. (c == b'-') ≡ false) front
    × ((id ≡ front) ⊎ ((back : JsString) × (id ≡ front ++ b'-' ∷ back)))

-- The number that a text stands for.
abbrev pub IsNumber : JsString → JsNumber → Type 0
IsNumber [] n = n ≡ num 0
IsNumber (c ∷ s) n =
    ((k : ℕ) × (of_decimal (c ∷ s) ≡ some k) × (n ≡ num k))
    ⊎ ((of_decimal (c ∷ s) ≡ none) × (n ≡ nan))

-- The ledger: 0 without the time of its close, and else the number in front of the identifier.
abbrev pub IsLedger : Option JsString → JsString → JsNumber → Type 0
IsLedger none id n = n ≡ num 0
IsLedger (some []) id n = n ≡ num 0
IsLedger (some (c ∷ s)) id n = (front : JsString) × IsFront id front × IsNumber front n

-- The proposal: the text of the value's first element, where there is one.
abbrev pub IsFirst : Option (Option (List (Option JsString))) → Option JsString → Type 0
IsFirst (some (some (v ∷ vs))) o = o ≡ v
IsFirst _ o = o ≡ none

unfoldable before : JsString → JsString
before [] = []
before (c ∷ s) = let rest = before s in if c == b'-' then [] else c ∷ rest

push_front-first :
    (x : ℕ) (l : List JsString) (b : JsString)
    → get_elem? l 0 ≡ some b
    → get_elem? (push_front x l) 0 ≡ some (x ∷ b)
push_front-first x [] b h = cc
push_front-first x (s ∷ ss) b h = let same : s ≡ b = cc in ap (λ y. some (x ∷ y)) same

split-before : (s : JsString) → get_elem? (split b'-' s) 0 ≡ some (before s)
unfolding split before
split-before [] = refl
split-before (c ∷ s) = elim (Bool-cases (c == b'-')) [
  | inl e ↦ rw e refl
  | inr e ↦ rw e (push_front-first c (split b'-' s) (before s) (split-before s))
]

first_part-before : (id : JsString) → first_part id ≡ before id
unfolding first_part
first_part-before id = ap (λ o. or_else o []) (split-before id)

before-IsFront : (id : JsString) → IsFront id (before id)
unfolding before
before-IsFront [] = (tt, inl refl)
before-IsFront (c ∷ s) =
    let (plain, cut) = before-IsFront s in
    elim (Bool-cases (c == b'-')) [
      | inl e ↦ rw e (tt, inr (s, ap (λ x. x ∷ s) ((==_iff c b'-').0 e)))
      | inr e ↦ rw e (
        (e, plain),
        elim cut [
          | inl h ↦ inl (ap (λ l. c ∷ l) h)
          | inr (back, h) ↦ inr (back, ap (λ l. c ∷ l) h)
        ],
      )
    ]

before-front : (front : JsString) → All (λ c. (c == b'-') ≡ false) front → before front ≡ front
unfolding before
before-front [] h = refl
before-front (c ∷ s) (e, h) = rw (e, before-front s h) refl

before-dash :
    (front back : JsString)
    → All (λ c. (c == b'-') ≡ false) front
    → before (front ++ b'-' ∷ back) ≡ front
unfolding before
before-dash [] back h = refl
before-dash (c ∷ s) back (e, h) = rw (e, before-dash s back h) refl

IsFront-before : (id front : JsString) → IsFront id front → before id ≡ front
IsFront-before id front (plain, inl e) = ap before e ∙ before-front front plain
IsFront-before id front (plain, inr (back, e)) = ap before e ∙ before-dash front back plain

pub first_value_iff :
    (v : Option (Option (List (Option JsString)))) (o : Option JsString)
    → (o ≡ first_value v) ↔ IsFirst v o
unfolding first_value
first_value_iff none o = (λ e. e, λ e. e)
first_value_iff (some none) o = (λ e. e, λ e. e)
first_value_iff (some (some [])) o = (λ e. e, λ e. e)
first_value_iff (some (some (v ∷ vs))) o = (λ e. e, λ e. e)

IsNumber-iff :
    (s : JsString) (n : JsNumber)
    → (n ≡ (if truthy s then elim (of_decimal s) [ none ↦ nan | some k ↦ num k ] else num 0))
      ↔ IsNumber s n
IsNumber-iff [] n = (λ e. e, λ e. e)
IsNumber-iff (c ∷ s) n = by_value (of_decimal (c ∷ s)) refl
  where
    by_value :
        (o : Option ℕ)
        → of_decimal (c ∷ s) ≡ o
        → (n ≡ elim o [ none ↦ nan | some k ↦ num k ]) ↔ (
            ((k : ℕ) × (of_decimal (c ∷ s) ≡ some k) × (n ≡ num k))
            ⊎ ((of_decimal (c ∷ s) ≡ none) × (n ≡ nan)))
    by_value none e = (
      λ h. inr (e, h),
      λ h. elim h [
        | inl (k, x, y) ↦ absurd (let z : ◌≡◌ {A = Option ℕ} none (some k) = sym e ∙ x in cc)
        | inr (x, y) ↦ y
      ],
    )
    by_value (some k) e = (
      λ h. inl (k, e, h),
      λ h. elim h [
        | inl (m, x, y) ↦
            let z : ◌≡◌ {A = Option ℕ} (some k) (some m) = sym e ∙ x in
            let w : k ≡ m = cc in y ∙ ap num (sym w)
        | inr (x, y) ↦ absurd (let z : ◌≡◌ {A = Option ℕ} (some k) none = sym e ∙ x in cc)
      ],
    )

pub ledger_of_iff :
    (r : EventRecord) (n : JsNumber) → (n ≡ ledger_of r) ↔ IsLedger r.ledger_closed_at r.id n
unfolding ledger_of
ledger_of_iff r n = by_time r.ledger_closed_at
  where
    by_time :
        (o : Option JsString)
        → (n ≡ (
            if is_set o
            then (if truthy (first_part r.id)
                then elim (of_decimal (first_part r.id)) [ none ↦ nan | some k ↦ num k ]
                else num 0)
            else num 0))
          ↔ IsLedger o r.id n
    by_time none = (λ e. e, λ e. e)
    by_time (some []) = (λ e. e, λ e. e)
    by_time (some (c ∷ s)) = (
      λ e. (
        first_part r.id,
        subst (IsFront r.id) (sym (first_part-before r.id)) (before-IsFront r.id),
        (IsNumber-iff (first_part r.id) n).0 e,
      ),
      λ (front, f, k). (IsNumber-iff (first_part r.id) n).1 (
          subst (λ x. IsNumber x n) (sym (first_part-before r.id ∙ IsFront-before r.id front f)) k),
    )
