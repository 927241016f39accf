-- ===== src/Frontend/Proposals.antt =====
-- The reading of proposals and votes: the functions of frontend/src/api.ts that load them, by what the
-- contract calls answer, and frontend/src/store/proposalStore.ts. Numbers of proposals are exact
-- here, as they are in JavaScript below 2 ^ 53.
pub mod Loading
pub mod Votes
mod Examples
use cosmosvote.Prelude.{
  ℕ, zero, suc, Option, none, some, Bool, true, false, not, List, [], ◌∷◌, JsString, ◌===◌,
  to_decimal, if◌then◌else◌, choose, Result, ok, throws, ◌>>=◌, ◌>>◌,
}

pub data ProposalState : Type 0 where
  active passed rejected executed cancelled : ProposalState

pub data VoteType : Type 0 where
  yes no abstain : VoteType

pub record Proposal : Type 0 where
  pub id : ℕ
  pub proposer : JsString
  pub title : JsString
  pub description : JsString
  pub cancellation_reason : Option JsString
  pub votes_yes : ℕ
  pub votes_no : ℕ
  pub votes_abstain : ℕ
  pub quorum : ℕ
  pub start_time : ℕ
  pub end_time : ℕ
  pub state : ProposalState

pub record VoteRecord : Type 0 where
  pub vote : VoteType
  pub weight : ℕ

-- What the calls of the contracts answer.
pub record Chain : Type 0 where
  pub proposal_count : Result JsString ℕ
  pub get_proposal : ℕ → Result JsString Proposal
  pub has_voted : ℕ → JsString → Result JsString Bool
  pub get_vote : ℕ → JsString → Result JsString (Option VoteRecord)
  pub decimals : Result JsString ℕ

-- The filter and map of `fetchAllProposals`: a rejected request is dropped.
pub fulfilled : List (Result JsString Proposal) → List Proposal
fulfilled [] = []
fulfilled (ok p ∷ results) = p ∷ fulfilled results
fulfilled (throws reason ∷ results) = fulfilled results

-- `Array.from({ length: count }, (_, i) => fetchProposal(i))`
pub fetch_from : (ℕ → Result JsString Proposal) → (count i : ℕ) → List (Result JsString Proposal)
fetch_from fetch zero i = []
fetch_from fetch (suc count) i = fetch i ∷ fetch_from fetch count (suc i)

pub fetch_all_proposals : Chain → Result JsString (List Proposal)
unfolding fulfilled fetch_from
fetch_all_proposals chain = do
  count ← chain.proposal_count
  ok (fulfilled (fetch_from chain.get_proposal count 0))

-- `fetchVoteRecord`: an error is null.
pub vote_or_none : Result JsString (Option VoteRecord) → Option VoteRecord
vote_or_none (ok answer) = answer
vote_or_none (throws e) = none

pub fetch_vote_record : Chain → ℕ → JsString → Option VoteRecord
unfolding vote_or_none
fetch_vote_record chain id voter = vote_or_none (chain.get_vote id voter)

-- `fetchHasVoted(...).catch(() => false)`
pub voted_or_false : Result JsString Bool → Bool
voted_or_false (ok voted) = voted
voted_or_false (throws e) = false

-- `new Map(entries)`: a key that comes again takes the new value at its place.
pub set_key : JsString → VoteRecord → List (JsString × VoteRecord) → List (JsString × VoteRecord)
set_key key vote [] = (key, vote) ∷ []
set_key key vote ((k, v) ∷ rest) =
    if k === key then (k, vote) ∷ rest else (k, v) ∷ set_key key vote rest

pub set_all :
    List (JsString × VoteRecord) → List (JsString × VoteRecord) → List (JsString × VoteRecord)
unfolding set_key
set_all [] m = m
set_all ((k, v) ∷ entries) m = set_all entries (set_key k v m)

pub entry_of : ℕ → Option VoteRecord → Option (JsString × VoteRecord)
entry_of id none = none
entry_of id (some vote) = some (to_decimal id, vote)

-- One entry of `loadVotesForUser`.
pub vote_entry : Chain → JsString → Proposal → Option (JsString × VoteRecord)
unfolding voted_or_false entry_of fetch_vote_record
vote_entry chain wallet p =
    if not (voted_or_false (chain.has_voted p.id wallet))
    then none
    else entry_of p.id (fetch_vote_record chain p.id wallet)

pub record Store : Type 0 where
  pub proposals : List Proposal
  pub decimals : ℕ
  pub loading : Bool
  pub error : Option JsString
  pub progress : Option (ℕ × ℕ)
  pub voted_map : List (JsString × VoteRecord)

pub initial_store : Store
initial_store = record {
  proposals = [];
  decimals = 0;
  loading = false;
  error = none;
  progress = none;
  voted_map = [];
}

-- `loadProposals` up to its wait.
pub begin_loading : Store → Store
begin_loading s = record s { loading = true; error = none; progress = none }

-- `Promise.all` of the two requests; when both fail, either may be the first.
pub both :
    (decimals_first : Bool)
    → Result JsString (List Proposal)
    → Result JsString ℕ
    → Result JsString (List Proposal × ℕ)
both first (ok ps) (ok d) = ok (ps, d)
both first (ok ps) (throws e) = throws e
both first (throws e) (ok d) = throws e
both first (throws e) (throws f) = throws (if first then f else e)

pub end_loading : Result JsString (List Proposal × ℕ) → Store → Store
end_loading (ok (ps, d)) s = record s {
  proposals = ps;
  decimals = d;
  loading = false;
  progress = none;
}
end_loading (throws e) s = record s { error = some e; loading = false; progress = none }

pub load_proposals : Chain → Bool → Store → Store
unfolding begin_loading both end_loading fetch_all_proposals
load_proposals chain first s =
    end_loading (both first (fetch_all_proposals chain) chain.decimals) (begin_loading s)

pub load_votes_for_user : Chain → JsString → Store → Store
unfolding vote_entry set_all
load_votes_for_user chain wallet s = record s {
  voted_map = set_all (choose (vote_entry chain wallet) s.proposals) [];
}

pub clear_votes : Store → Store
clear_votes s = record s { voted_map = [] }
