-- ===== src/Frontend/Dashboard/Counts.antt =====
-- The numbers of frontend/src/components/UserDashboard.tsx against one another.
use cosmosvote.Prelude.{
  ℕ, suc, ◌+◌, ◌-◌, ◌≡◌, refl, sym, ap, ◌↔◌, Option, none, some, Bool, not, List, [], ◌∷◌, map,
  arith, ltb, if◌then◌else◌, length, take, select, length-take,
}
use cosmosvote.Frontend.Proposals.{Proposal}
use cosmosvote.Frontend.Dashboard.{
  VotedMap, is_active, is_voted, row_of, unvoted_of, nudge_of, dashboard,
}

split_count :
    (p : Proposal → Bool) (xs : List Proposal)
    → length (select p xs) + length (select (λ x. not (p x)) xs) ≡ length xs
split_count p [] = omega arith
split_count p (x ∷ xs) = ground (arith, split_count p xs)

length-map : {A : Type 0} {B : Type 0} (f : A → B) (xs : List A) → length (map f xs) ≡ length xs
length-map f [] = refl
length-map f (x ∷ xs) = ap suc (length-map f xs)

-- The rest of the votes, which the list does not show.
abbrev pub rest_of : Option ℕ → ℕ
rest_of none = 0
rest_of (some n) = n

-- The active proposals are those that have the wallet's vote and those that wait for it; the rows of the
-- list and the number behind them make up the votes; and there is a reminder exactly if a proposal waits.
pub dashboard_lem :
    (voted_map : VotedMap) (proposals : List Proposal)
    → let d = dashboard voted_map proposals in
      (d.active_count
        ≡ length (select (is_voted voted_map) (select is_active proposals)) + d.unvoted_count)
      × (d.voted_count ≡ length d.rows + rest_of d.more)
      × ((d.nudge ≡ none) ↔ (d.unvoted_count ≡ 0))
unfolding dashboard unvoted_of nudge_of
dashboard_lem voted_map proposals = (
  sym (split_count (is_voted voted_map) (select is_active proposals)),
  rows_more (select (is_voted voted_map) proposals),
  reminder (length (unvoted_of voted_map proposals)),
)
  where
    rows_more :
        (voted : List Proposal)
        → length voted
          ≡ length (map (row_of voted_map) (take 5 voted))
            + rest_of (if ltb 5 (length voted) then some (length voted - 5) else none)
    rows_more voted =
        ground (arith, length-map (row_of voted_map) (take 5 voted), length-take 5 voted)

    reminder : (n : ℕ) → (nudge_of n ≡ none) ↔ (n ≡ 0)
    reminder n = ground arith
