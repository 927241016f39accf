-- ===== src/Frontend/Pages.antt =====
-- frontend/src/components/Pagination.tsx: the page numbers and the summary; and the paging of
-- frontend/src/App.tsx. A gap, which is null there, is none here.
pub mod Numbers
pub mod Slices
mod Examples
use cosmosvote.Prelude.{
  ℕ, zero, suc, ◌+◌, ◌-◌, ◌*◌, ◌/◌, min, max, Option, none, some, List, [], ◌∷◌, ◌++◌, ltb, leb,
  ◌==◌, if◌then◌else◌, length, take, drop, any,
}

-- `Set.add`: a set keeps the order of insertion.
pub insert_once : ℕ → List ℕ → List ℕ
insert_once n set = if any (λ m. m == n) set then set else set ++ n ∷ []

-- The loop of `buildPageNumbers`, with the number of its rounds.
pub insert_range : (rounds i : ℕ) → List ℕ → List ℕ
unfolding insert_once
insert_range zero i set = set
insert_range (suc rounds) i set = insert_range rounds (i + 1) (insert_once i set)

pub insert_sorted : ℕ → List ℕ → List ℕ
insert_sorted n [] = n ∷ []
insert_sorted n (m ∷ ms) = if leb n m then n ∷ m ∷ ms else m ∷ insert_sorted n ms

-- `sort((a, b) => a - b)`
pub sort_numbers : List ℕ → List ℕ
unfolding insert_sorted
sort_numbers [] = []
sort_numbers (n ∷ ns) = insert_sorted n (sort_numbers ns)

-- The second loop, behind a number that is already out.
pub with_gaps : ℕ → List ℕ → List (Option ℕ)
with_gaps previous [] = []
with_gaps previous (n ∷ ns) =
    if ltb 1 (n - previous) then none ∷ some n ∷ with_gaps n ns else some n ∷ with_gaps n ns

pub gaps_from : List ℕ → List (Option ℕ)
unfolding with_gaps
gaps_from [] = []
gaps_from (n ∷ ns) = some n ∷ with_gaps n ns

-- The set of `buildPageNumbers`.
pub window : ℕ → ℕ → List ℕ
unfolding insert_once insert_range
window current total =
    let first = max 1 (current - 1) in
    let last = min total (current + 1) in
    insert_range (last + 1 - first) first (insert_once total (insert_once 1 []))

pub build_page_numbers : ℕ → ℕ → List (Option ℕ)
unfolding window sort_numbers gaps_from
build_page_numbers current total =
    if leb total 1 then [] else gaps_from (sort_numbers (window current total))

-- The two ends of the summary.
pub summary_start : (page page_size total_count : ℕ) → ℕ
summary_start page page_size total_count =
    if total_count == 0 then 0 else (page - 1) * page_size + 1

pub summary_end : (page page_size total_count : ℕ) → ℕ
summary_end page page_size total_count = min (page * page_size) total_count

-- frontend/src/App.tsx
abbrev pub page_size : ℕ
page_size = 20

-- `Math.max(1, Math.ceil(filtered.length / PAGE_SIZE))`
pub total_pages : ℕ → ℕ
total_pages count = max 1 ((count + 19) / page_size)

pub safe_page : (page count : ℕ) → ℕ
unfolding total_pages
safe_page page count = min page (total_pages count)

pub paged_proposals {ℓ} : {A : Type ℓ} → ℕ → List A → List A
unfolding safe_page
paged_proposals page filtered =
    take page_size (drop ((safe_page page (length filtered) - 1) * page_size) filtered)
