-- ===== src/Frontend/Pages/Slices.antt =====
-- The pages of frontend/src/App.tsx and their summary in frontend/src/components/Pagination.tsx.
use cosmosvote.Prelude.{
  ℕ, zero, suc, ◌+◌, ◌-◌, ◌*◌, ◌≤◌, min, ◌≡◌, refl, sym, ap, ◌∙◌, ◌≢◌, List, [], ◌∷◌, ◌++◌,
  append_assoc, append-nil, arith, length, take, drop, length-take, length-drop, take-append-drop,
  drop-drop, drop_all,
}
use cosmosvote.Frontend.Pages.{
  summary_start, summary_end, page_size, total_pages, safe_page, paged_proposals,
}

enough : (n : ℕ) → n ≤ (0 + total_pages n) * 20
unfolding total_pages
enough n = omega arith

module _ {A : Type 0} where
  page_of :
      (k : ℕ) (xs : List A)
      → suc k ≤ total_pages (length xs)
      → paged_proposals (suc k) xs ≡ take 20 (drop (k * 20) xs)
  unfolding paged_proposals safe_page
  page_of k xs h = rw (inside k (total_pages (length xs)) h)
    where
      inside : (k n : ℕ) → suc k ≤ n → min (suc k) n - 1 ≡ k
      inside k n h = omega arith

  -- What a number of pages show, from one on.
  abbrev pub shown_from : (pages page : ℕ) → List A → List A
  shown_from zero page filtered = []
  shown_from (suc pages) page filtered =
      paged_proposals page filtered ++ shown_from pages (suc page) filtered

  shown_from_lem :
      (n k : ℕ) (xs : List A)
      → k + n ≤ total_pages (length xs)
      → shown_from n (suc k) xs ++ drop ((k + n) * 20) xs ≡ drop (k * 20) xs
  shown_from_lem zero k xs h = ap (λ m. drop m xs) (omega arith)
  shown_from_lem (suc n) k xs h =
      rw
        (
          page_of k xs (omega arith),
          append_assoc (take 20 (drop (k * 20) xs)) (shown_from n (suc (suc k)) xs)
              (drop ((k + suc n) * 20) xs),
          shift k n,
          shown_from_lem n (suc k) xs (omega arith),
          next k,
          sym (drop-drop (k * 20) 20 xs),
        )
        (take-append-drop 20 (drop (k * 20) xs))
    where
      shift : (k n : ℕ) → (k + suc n) * 20 ≡ (suc k + n) * 20
      shift k n = omega arith

      next : (k : ℕ) → suc k * 20 ≡ k * 20 + 20
      next k = omega arith

  -- The pages from the first to the last show every proposal once and in order.
  pub shown_from_first :
      (filtered : List A) → shown_from (total_pages (length filtered)) 1 filtered ≡ filtered
  shown_from_first xs =
      let n = total_pages (length xs) in
      sym (append-nil (shown_from n 1 xs))
      ∙ ap (λ rest. shown_from n 1 xs ++ rest)
          (sym (drop_all ((0 + n) * 20) xs (enough (length xs))))
      ∙ shown_from_lem n 0 xs (omega arith)

summary_count :
    (n count : ℕ)
    → 1 ≤ count
    → suc n ≤ total_pages count
    → let start = summary_start (suc n) page_size count in
      let end = summary_end (suc n) page_size count in
      (start + min 20 (count - n * 20) ≡ end + 1) × (start ≤ end) × (end ≤ count)
unfolding summary_start summary_end total_pages
summary_count n count h k = ground arith

-- The summary of a page that exists gives the number of the first proposal on it and of the last: from
-- the one to the other there are as many as the page shows.
pub summary_lem :
    {A : Type 0} (page : ℕ) (filtered : List A)
    → 1 ≤ page
    → page ≤ total_pages (length filtered)
    → filtered ≢ []
    → let start = summary_start page page_size (length filtered) in
      let end = summary_end page page_size (length filtered) in
      (start + length (paged_proposals page filtered) ≡ end + 1)
      × (start ≤ end)
      × (end ≤ length filtered)
unfolding summary_start summary_end
summary_lem zero filtered h k ne = absurd (omega arith)
summary_lem (suc n) [] h k ne = absurd (ne refl)
summary_lem (suc n) (x ∷ xs) h k ne =
    let count = length (x ∷ xs) in
    rw
      (page_of n (x ∷ xs) k, length-take 20 (drop (n * 20) (x ∷ xs)), length-drop (n * 20) (x ∷ xs))
      (summary_count n count (omega arith) k)
