-- ===== src/Frontend/Pages/Examples.antt =====
-- The theorems on frontend/src/components/Pagination.tsx and the paging of frontend/src/App.tsx at concrete pages.
use cosmosvote.Prelude.{
  ℕ, ◌≡◌, refl, ◌↔◌, Option, none, some, List, [], ◌∷◌, ◌++◌, arith, replicate, In,
}
use cosmosvote.Frontend.Pages.{
  insert_once, insert_range, insert_sorted, sort_numbers, with_gaps, gaps_from, window,
  build_page_numbers,
}
use cosmosvote.Frontend.Pages.Numbers.{Spaced, IsShown, build_page_numbers_lem}

numbers_test :
    build_page_numbers 5 9 ≡ some 1 ∷ none ∷ some 4 ∷ some 5 ∷ some 6 ∷ none ∷ some 9 ∷ []
unfolding build_page_numbers window sort_numbers gaps_from with_gaps insert_once insert_range
    insert_sorted
numbers_test = refl

build_page_numbers_lem_example :
    ((rest : List (Option ℕ)) × (build_page_numbers 5 9 ≡ some 1 ∷ rest) × Spaced 1 rest)
    × ((k : ℕ) → In (some k) (build_page_numbers 5 9) ↔ IsShown 5 9 k)
build_page_numbers_lem_example = build_page_numbers_lem 5 9 (omega arith)

-- Forty-five proposals take three pages.
abbrev proposals : List ℕ
proposals = replicate 20 1 ++ replicate 20 2 ++ replicate 5 3
