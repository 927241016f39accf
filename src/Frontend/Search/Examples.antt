-- ===== src/Frontend/Search/Examples.antt =====
-- The theorem on the search of frontend/src/App.tsx at two proposals.
use cosmosvote.Prelude.{
  ◌+◌, ◌≡◌, refl, none, ◌&&◌, List, [], ◌∷◌, map, JsString, js, ◌===◌, lookup, starts_with, leb,
  if◌then◌else◌,
}
use cosmosvote.Frontend.Proposals.{ProposalState, active, passed, Proposal}
use cosmosvote.Frontend.Search.{
  state_name, Params, get_url_params, set_url_params, is_match, filtered,
}

-- `toLowerCase` on the letters of ASCII.
abbrev lower : JsString → JsString
lower s = map (λ c. if leb b'A' c && leb c b'Z' then c + 32 else c) s

abbrev proposal : ProposalState → JsString → Proposal
proposal state title = record {
  id = 1;
  proposer = js "GABC";
  title = title;
  description = js "Pay for a quarter.";
  cancellation_reason = none;
  votes_yes = 4;
  votes_no = 1;
  votes_abstain = 0;
  quorum = 3;
  start_time = 10;
  end_time = 90;
  state = state;
}

abbrev docs : Proposal
docs = proposal active (js "Fund the Docs")

abbrev proposals : List Proposal
proposals = docs ∷ proposal passed (js "Docs") ∷ proposal active (js "Fees") ∷ []

abbrev searched : Params
searched = record { search = js "DOCS"; state_filter = js "Active" }

filtered_test : filtered lower searched proposals ≡ docs ∷ []
unfolding filtered is_match state_name js ◌===◌ starts_with
filtered_test = refl

url_test : get_url_params (set_url_params searched) ≡ searched
unfolding get_url_params set_url_params lookup js ◌===◌
url_test = refl
