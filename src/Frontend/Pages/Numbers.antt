-- ===== src/Frontend/Pages/Numbers.antt =====
-- The buttons of frontend/src/components/Pagination.tsx.
use cosmosvote.Prelude.{
  ℕ, zero, suc, ◌+◌, ◌-◌, ◌≤◌, ◌<◌, min, max, ◌≡◌, refl, sym, ◌∙◌, subst, ◌↔◌, ◌≢◌, ◌⊎◌, inl, inr,
  Option, none, some, true, false, List, [], ◌∷◌, ◌++◌, arith, leb, ◌==◌, ==_iff, Bool-cases, any,
  In, All, any_iff, In-append, In-append_left, In-append_right, All-append, HasDistinct,
  HasDistinct-append_one,
}
use cosmosvote.Frontend.Pages.{
  insert_once, insert_range, insert_sorted, sort_numbers, with_gaps, gaps_from, window,
  build_page_numbers,
}

-- Each number is followed by its successor, or by a gap and a number further on.
abbrev pub Spaced : ℕ → List (Option ℕ) → Type 0
Spaced n [] = Unit {0}
Spaced n (some m ∷ rest) = (m ≡ n + 1) × Spaced m rest
Spaced n (none ∷ []) = ⊥
Spaced n (none ∷ none ∷ rest) = ⊥
Spaced n (none ∷ some m ∷ rest) = (n + 1 < m) × Spaced m rest

-- Numbers that rise from a given one.
abbrev pub Rises : ℕ → List ℕ → Type 0
Rises n [] = Unit {0}
Rises n (m ∷ ms) = (n < m) × Rises m ms

with_gaps-Spaced : (n : ℕ) (ns : List ℕ) → Rises n ns → Spaced n (with_gaps n ns)
unfolding with_gaps
with_gaps-Spaced n [] h = tt
with_gaps-Spaced n (m ∷ ms) h = ground (arith, with_gaps-Spaced m ms h.1)

with_gaps-In : (k n : ℕ) (ns : List ℕ) → In (some k) (with_gaps n ns) ↔ In k ns
unfolding with_gaps
with_gaps-In k n [] = (λ m. m, λ m. m)
with_gaps-In k n (m ∷ ms) = ground (arith, with_gaps-In k m ms)

gaps_from-In : (k : ℕ) (ns : List ℕ) → In (some k) (gaps_from ns) ↔ In k ns
unfolding gaps_from
gaps_from-In k [] = (λ m. m, λ m. m)
gaps_from-In k (m ∷ ms) = ground (arith, with_gaps-In k m ms)

insert_once-In : (k n : ℕ) (set : List ℕ) → In k (insert_once n set) ↔ ((k ≡ n) ⊎ In k set)
unfolding insert_once
insert_once-In k n set = elim (Bool-cases (any (λ m. m == n) set)) [
  | inl e ↦ rw e (λ m. inr m, λ m. found e m)
  | inr e ↦ rw e (λ m. last (In-append k set (n ∷ []) m), λ m. joined m)
]
  where
    found : any (λ m. m == n) set ≡ true → (k ≡ n) ⊎ In k set → In k set
    found e (inl same) =
        let (a, m, q) = (any_iff (λ x. x == n) set).0 e in
        subst (λ x. In x set) ((==_iff a n).0 q ∙ sym same) m
    found e (inr m) = m

    last : In k set ⊎ In k (n ∷ []) → (k ≡ n) ⊎ In k set
    last (inl m) = inr m
    last (inr (inl e)) = inl e
    last (inr (inr m)) = absurd m

    joined : (k ≡ n) ⊎ In k set → In k (set ++ n ∷ [])
    joined (inl e) = In-append_right k set (n ∷ []) (inl e)
    joined (inr m) = In-append_left k set (n ∷ []) m

-- A set of positive numbers, each once.
abbrev pub IsNumberSet : List ℕ → Type 0
IsNumberSet set = HasDistinct (λ n. n) set × All (λ n. 0 < n) set

none_same : (n : ℕ) (set : List ℕ) → any (λ m. m == n) set ≡ false → All (λ m. m ≢ n) set
none_same n [] e = tt
none_same n (m ∷ ms) e = ground (arith, none_same n ms)

insert_once-IsNumberSet :
    (n : ℕ) (set : List ℕ) → 0 < n → IsNumberSet set → IsNumberSet (insert_once n set)
unfolding insert_once
insert_once-IsNumberSet n set pos (d, ps) = elim (Bool-cases (any (λ m. m == n) set)) [
  | inl e ↦ rw e (d, ps)
  | inr e ↦ rw e (
    HasDistinct-append_one (λ x. x) set n d (none_same n set e),
    All-append (λ x. 0 < x) set (n ∷ []) ps (pos, tt),
  )
]

insert_range-IsNumberSet :
    (rounds i : ℕ) (set : List ℕ)
    → 0 < i
    → IsNumberSet set
    → IsNumberSet (insert_range rounds i set)
unfolding insert_range
insert_range-IsNumberSet zero i set pos h = h
insert_range-IsNumberSet (suc rounds) i set pos h =
    insert_range-IsNumberSet rounds (i + 1) (insert_once i set) (omega arith)
      (insert_once-IsNumberSet i set pos h)

insert_range-In :
    (k rounds i : ℕ) (set : List ℕ)
    → In k (insert_range rounds i set) ↔ (((i ≤ k) × (k < i + rounds)) ⊎ In k set)
unfolding insert_range
insert_range-In k zero i set = (λ m. inr m, λ m. ground (arith, m))
insert_range-In k (suc rounds) i set =
    ground (arith, insert_range-In k rounds (i + 1) (insert_once i set), insert_once-In k i set)

insert_sorted-In : (k n : ℕ) (ns : List ℕ) → In k (insert_sorted n ns) ↔ ((k ≡ n) ⊎ In k ns)
unfolding insert_sorted
insert_sorted-In k n [] = (λ m. m, λ m. m)
insert_sorted-In k n (m ∷ ms) = ground (arith, insert_sorted-In k n ms)

sort_numbers-In : (k : ℕ) (ns : List ℕ) → In k (sort_numbers ns) ↔ In k ns
unfolding sort_numbers
sort_numbers-In k [] = (λ m. m, λ m. m)
sort_numbers-In k (n ∷ ns) =
    ground (arith, sort_numbers-In k ns, insert_sorted-In k n (sort_numbers ns))

insert_sorted-Rises :
    (low n : ℕ) (ms : List ℕ)
    → low < n
    → (In n ms → ⊥)
    → Rises low ms
    → Rises low (insert_sorted n ms)
unfolding insert_sorted
insert_sorted-Rises low n [] pos out h = (pos, tt)
insert_sorted-Rises low n (m ∷ ms) pos out h = ground (arith, out, insert_sorted-Rises m n ms)

out_of : (n : ℕ) (ns : List ℕ) → All (λ m. n ≢ m) ns → In n ns → ⊥
out_of n [] h m = absurd m
out_of n (m ∷ ms) h (inl e) = h.0 e
out_of n (m ∷ ms) h (inr k) = out_of n ms h.1 k

sort_numbers-Rises : (ns : List ℕ) → IsNumberSet ns → Rises 0 (sort_numbers ns)
unfolding sort_numbers
sort_numbers-Rises [] h = tt
sort_numbers-Rises (n ∷ ns) (d, p) =
    insert_sorted-Rises 0 n (sort_numbers ns) p.0
      (λ m. out_of n ns d.0 ((sort_numbers-In n ns).0 m)) (sort_numbers-Rises ns (d.1, p.1))

Rises-In : (n k : ℕ) (ms : List ℕ) → Rises n ms → In k ms → n < k
Rises-In n k [] h m = absurd m
Rises-In n k (x ∷ xs) h (inl e) = omega arith
Rises-In n k (x ∷ xs) h (inr m) = omega (arith, Rises-In x k xs h.1 m)

starts_at_one :
    (ns : List ℕ) → Rises 0 ns → In 1 ns → (rest : List ℕ) × (ns ≡ 1 ∷ rest) × Rises 1 rest
starts_at_one [] h m = absurd m
starts_at_one (n ∷ ns) h (inl e) = (ns, rw e refl, rw e h.1)
starts_at_one (n ∷ ns) h (inr m) = absurd (omega (arith, Rises-In n 1 ns h.1 m))

window-IsNumberSet : (current total : ℕ) → 2 ≤ total → IsNumberSet (window current total)
unfolding window
window-IsNumberSet current total h =
    let first = max 1 (current - 1) in
    let last = min total (current + 1) in
    insert_range-IsNumberSet (last + 1 - first) first (insert_once total (insert_once 1 []))
      (omega arith)
      (insert_once-IsNumberSet total (insert_once 1 []) (omega arith)
        (insert_once-IsNumberSet 1 [] (omega arith) (tt, tt)))

abbrev pub IsShown : (current total k : ℕ) → Type 0
IsShown current total k =
    (k ≡ 1) ⊎ (k ≡ total) ⊎ ((1 ≤ k) × (k ≤ total) × (current ≤ k + 1) × (k ≤ current + 1))

window-In :
    (current total k : ℕ) → 2 ≤ total → In k (window current total) ↔ IsShown current total k
unfolding window
window-In current total k h =
    let first = max 1 (current - 1) in
    let last = min total (current + 1) in
    ground (
      arith,
      insert_range-In k (last + 1 - first) first (insert_once total (insert_once 1 [])),
      insert_once-In k total (insert_once 1 []),
      insert_once-In k 1 [],
    )

two_pages : (n : ℕ) → 2 ≤ n → leb n 1 ≡ false
two_pages n h = ground arith

spaced :
    (ns : List ℕ)
    → (rest : List ℕ) × (ns ≡ 1 ∷ rest) × Rises 1 rest
    → (rest : List (Option ℕ)) × (gaps_from ns ≡ some 1 ∷ rest) × Spaced 1 rest
unfolding gaps_from
spaced ns (rest, e, r) = (with_gaps 1 rest, rw e refl, with_gaps-Spaced 1 rest r)

-- With two pages or more, the buttons are those of page 1, the last page, the current page and its
-- neighbours as far as these exist, each once and in rising order, with a gap exactly between two
-- numbers that do not follow each other.
pub build_page_numbers_lem :
    (current total : ℕ)
    → 2 ≤ total
    → ((rest : List (Option ℕ)) × (build_page_numbers current total ≡ some 1 ∷ rest)
        × Spaced 1 rest)
      × ((k : ℕ) → In (some k) (build_page_numbers current total) ↔ IsShown current total k)
unfolding build_page_numbers
build_page_numbers_lem current total h =
    let set = window current total in
    let sorted = sort_numbers set in
    let has_one = (sort_numbers-In 1 set).1 ((window-In current total 1 h).1 (inl refl)) in
    let rising = sort_numbers-Rises set (window-IsNumberSet current total h) in
    rw (two_pages total h) (
      spaced sorted (starts_at_one sorted rising has_one),
      λ k.
          ground (arith, gaps_from-In k sorted, sort_numbers-In k set, window-In current total k h),
    )
