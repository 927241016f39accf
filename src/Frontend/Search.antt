-- ===== src/Frontend/Search.antt =====
-- frontend/src/App.tsx: the search and the filter of the proposals, and the query of the address that keeps
-- them. A query is the list of its parameters, decoded.
pub mod Matches
mod Examples
use cosmosvote.Prelude.{
  contains, Bool, not, ◌&&◌, ◌||◌, List, [], ◌∷◌, ◌++◌, JsString, js, ◌===◌, truthy, lookup,
  or_else, if◌then◌else◌, select,
}
use cosmosvote.Frontend.Proposals.{
  ProposalState, active, passed, rejected, executed, cancelled, Proposal,
}

-- The text of a state, which is a string at run time.
unfoldable pub state_name : ProposalState → JsString
state_name active = js "Active"
state_name passed = js "Passed"
state_name rejected = js "Rejected"
state_name executed = js "Executed"
state_name cancelled = js "Cancelled"

pub record Params : Type 0 where
  pub search : JsString
  pub state_filter : JsString

-- `getUrlParams`
unfoldable pub get_url_params : List (JsString × JsString) → Params
get_url_params query = record {
  search = or_else (lookup (js "q") query) [];
  state_filter = or_else (lookup (js "state") query) (js "All");
}

-- The query that `setUrlParams` sets.
unfoldable pub set_url_params : Params → List (JsString × JsString)
set_url_params p =
    (if truthy p.search then (js "q", p.search) ∷ [] else [])
    ++ (if not (p.state_filter === js "All") then (js "state", p.state_filter) ∷ [] else [])

-- The parameter is `toLowerCase`.
module _ (lower : JsString → JsString) where
  unfoldable pub is_match : Params → Proposal → Bool
  unfolding state_name
  is_match p proposal =
      let match_state =
        p.state_filter === js "All" || state_name proposal.state === p.state_filter in
      let q = lower p.search in
      let match_search =
        not (truthy q)
        || contains (lower proposal.title) q
        || contains (lower proposal.description) q in
      match_state && match_search

  unfoldable pub filtered : Params → List Proposal → List Proposal
  unfolding is_match
  filtered p proposals = select (is_match p) proposals
