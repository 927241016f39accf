-- ===== src/Frontend/Format/Groups.antt =====
-- The groups of digits and the two decimals that frontend/src/utils.ts shows.
use cosmosvote.Prelude.{
  le→leb, ℕ, ◌+◌, ◌*◌, ◌%◌, ◌≤◌, ◌≡◌, refl, ap, ◌∙◌, ◌≢◌, ◌⊎◌, inl, inr, true, false, List, [], ◌∷◌,
  ◌++◌, arith, JsString, leb, ◌==◌, ==_iff, length, take, length-append,
}
use cosmosvote.Frontend.Format.{group_digits, pad_end}

abbrev pub Triple : Type 0
Triple = ℕ × ℕ × ℕ

abbrev pub joined : List Triple → JsString
joined [] = []
joined ((a, b, c) ∷ gs) = a ∷ b ∷ c ∷ joined gs

abbrev pub joined_with_commas : List Triple → JsString
joined_with_commas [] = []
joined_with_commas ((a, b, c) ∷ gs) = b',' ∷ a ∷ b ∷ c ∷ joined_with_commas gs

-- A text is another in groups: one to three characters, and then three at a time, each three behind a comma.
abbrev pub IsGrouped : JsString → JsString → Type 0
IsGrouped s text =
    (first : JsString) × (groups : List Triple) × ((1 ≤ length first) × (length first ≤ 3))
    × (s ≡ first ++ joined groups)
    × (text ≡ first ++ joined_with_commas groups)

length-joined : (gs : List Triple) → length (joined gs) ≡ 3 * length gs
length-joined [] = refl
length-joined ((a, b, c) ∷ gs) = let h = length-joined gs in omega arith

-- Another character goes to the first group, or before it if it is full.
IsGrouped-more :
    (c : ℕ) (s text : JsString)
    → IsGrouped s text
    → ((length s % 3 ≡ 0) × IsGrouped (c ∷ s) (c ∷ b',' ∷ text))
      ⊎ ((length s % 3 ≢ 0) × IsGrouped (c ∷ s) (c ∷ text))
IsGrouped-more c s text (first, groups, (low, high), e, t) =
    let size : length s ≡ length first + 3 * length groups =
      ap length e
      ∙ length-append first (joined groups)
      ∙ ap (λ n. length first + n) (length-joined groups) in
    by_first first low high e t size
  where
    by_first :
        (first : JsString)
        → 1 ≤ length first
        → length first ≤ 3
        → s ≡ first ++ joined groups
        → text ≡ first ++ joined_with_commas groups
        → length s ≡ length first + 3 * length groups
        → ((length s % 3 ≡ 0) × IsGrouped (c ∷ s) (c ∷ b',' ∷ text))
          ⊎ ((length s % 3 ≢ 0) × IsGrouped (c ∷ s) (c ∷ text))
    by_first [] low high e t size = absurd (omega arith)
    by_first (x ∷ []) low high e t size = inr (
      omega arith,
      (c ∷ x ∷ [], groups, (omega arith, omega arith), ap (λ l. c ∷ l) e, ap (λ l. c ∷ l) t),
    )
    by_first (x ∷ y ∷ []) low high e t size = inr (
      omega arith,
      (c ∷ x ∷ y ∷ [], groups, (omega arith, omega arith), ap (λ l. c ∷ l) e, ap (λ l. c ∷ l) t),
    )
    by_first (x ∷ y ∷ z ∷ []) low high e t size = inl (
      omega arith,
      (
        c ∷ [],
        (x, y, z) ∷ groups,
        (omega arith, omega arith),
        ap (λ l. c ∷ l) e,
        ap (λ l. c ∷ b',' ∷ l) t,
      ),
    )
    by_first (x ∷ y ∷ z ∷ u ∷ more) low high e t size = absurd (omega arith)

pub group_digits-IsGrouped : (s : JsString) → 1 ≤ length s → IsGrouped s (group_digits s)
unfolding group_digits
group_digits-IsGrouped [] h = absurd (omega arith)
group_digits-IsGrouped (c ∷ []) h = (c ∷ [], [], (omega arith, omega arith), refl, refl)
group_digits-IsGrouped (c ∷ x ∷ s) h =
    let long : leb 1 (length (x ∷ s)) ≡ true = le→leb 1 (length (x ∷ s)) (omega arith) in
    elim (IsGrouped-more c (x ∷ s) (group_digits (x ∷ s))
      (group_digits-IsGrouped (x ∷ s) (omega arith))) [
        | inl (full, g) ↦ rw (long, (==_iff (length (x ∷ s) % 3) 0).1 full) g
        | inr (part, g) ↦
            let off : (length (x ∷ s) % 3 == 0) ≡ false =
              grind (arith, ==_iff (length (x ∷ s) % 3) 0) in
            rw (long, off) g
      ]

-- The first two characters, or one and a zero.
abbrev pub IsTwo : JsString → ℕ → ℕ → Type 0
IsTwo [] a b = (a ≡ b'0') × (b ≡ b'0')
IsTwo (x ∷ []) a b = (a ≡ x) × (b ≡ b'0')
IsTwo (x ∷ y ∷ s) a b = (a ≡ x) × (b ≡ y)

pub pad_end-IsTwo :
    (s : JsString) → (a : ℕ) × (b : ℕ) × (pad_end 2 (take 2 s) ≡ a ∷ b ∷ []) × IsTwo s a b
unfolding pad_end
pad_end-IsTwo [] = (b'0', b'0', refl, (refl, refl))
pad_end-IsTwo (x ∷ []) = (x, b'0', refl, (refl, refl))
pad_end-IsTwo (x ∷ y ∷ s) = (x, y, refl, (refl, refl))
