-- ===== src/Frontend/Events/Examples.antt =====
-- The topics of a vote, of frontend/src/events.ts.
use cosmosvote.Prelude.{◌≡◌, refl, js}
use cosmosvote.Frontend.Events.{governance, gov_vote_cast, topics, governance_topic}
use cosmosvote.Frontend.Proposals.{yes}

topics_test : topics (governance (gov_vote_cast 3 (js "GABC") yes 10)) ≡ (js "gov", js "voted")
unfolding topics governance_topic
topics_test = refl
