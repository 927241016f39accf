-- ===== src/Frontend/Dashboard.antt =====
-- frontend/src/components/UserDashboard.tsx: the proposals by the votes of the wallet.
pub mod Counts
mod Examples
use cosmosvote.Prelude.{
  ℕ, ◌-◌, Option, none, some, Bool, true, false, not, List, [], map, JsString, js, ltb,
  if◌then◌else◌, length, take, select,
}
use cosmosvote.Frontend.Proposals.{active, Proposal, VoteRecord}

-- `votedMap`, by the identifiers of proposals.
abbrev pub VotedMap : Type 0
VotedMap = ℕ → Option VoteRecord

abbrev pub has_vote : Option VoteRecord → Bool
has_vote none = false
has_vote (some v) = true

unfoldable pub is_active : Proposal → Bool
is_active p = elim p.state [ active ↦ true | _ ↦ false ]

unfoldable pub is_voted : VotedMap → Proposal → Bool
is_voted voted_map p = has_vote (voted_map p.id)

-- A row of the list of votes, and the numbers that the dashboard shows.
pub record Row : Type 0 where
  pub id : ℕ
  pub title : JsString
  pub record_ : Option VoteRecord

pub record Shown : Type 0 where
  pub active_count : ℕ
  pub voted_count : ℕ
  pub unvoted_count : ℕ
  pub rows : List Row
  pub more : Option ℕ
  pub nudge : Option (ℕ × JsString)

unfoldable pub row_of : VotedMap → Proposal → Row
row_of voted_map p = record { id = p.id; title = p.title; record_ = voted_map p.id }

unfoldable pub unvoted_of : VotedMap → List Proposal → List Proposal
unfolding is_active is_voted
unvoted_of voted_map proposals =
    select (λ p. not (is_voted voted_map p)) (select is_active proposals)

-- The reminder counts the proposals that wait for a vote, with an s for more than one.
unfoldable pub nudge_of : ℕ → Option (ℕ × JsString)
nudge_of n = if ltb 0 n then some (n, if ltb 1 n then js "s" else []) else none

unfoldable pub dashboard : VotedMap → List Proposal → Shown
unfolding is_active is_voted row_of unvoted_of nudge_of
dashboard voted_map proposals =
    let voted = select (is_voted voted_map) proposals in
    record {
      active_count = length (select is_active proposals);
      voted_count = length voted;
      unvoted_count = length (unvoted_of voted_map proposals);
      rows = map (row_of voted_map) (take 5 voted);
      more = if ltb 5 (length voted) then some (length voted - 5) else none;
      nudge = nudge_of (length (unvoted_of voted_map proposals));
    }
