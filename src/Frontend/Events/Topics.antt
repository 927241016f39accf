-- ===== src/Frontend/Events/Topics.antt =====
-- The topics of frontend/src/events.ts.
use cosmosvote.Prelude.{
  ℕ, zero, suc, ◌≡◌, refl, sym, ap, ◌∙◌, ◌≢◌, some, Bool, true, false, List, [], ◌∷◌, map, arith,
  JsString, js, ◌===◌, ===_refl, differ, if◌then◌else◌, get_elem?, any,
}
use cosmosvote.Frontend.Events.{
  GovernanceEvent, TokenEvent, CosmosVoteEvent, governance, token, gov_initialized,
  gov_proposal_created, gov_vote_cast, gov_proposal_finalized, gov_proposal_executed,
  gov_proposal_cancelled, gov_quorum_updated, gov_admin_transfer_initiated,
  gov_admin_transfer_completed, gov_admin_transferred, gov_paused, gov_unpaused, token_initialized,
  token_transfer, token_approval, token_minted, token_burned, token_admin_transferred, gov_tags,
  token_tags, governance_topic, token_topic, topics,
}

-- Which of the interfaces an event is of, by its place in the file.
abbrev pub governance_kind : GovernanceEvent → ℕ
governance_kind (gov_initialized _ _) = 0
governance_kind (gov_proposal_created _ _ _ _ _) = 1
governance_kind (gov_vote_cast _ _ _ _) = 2
governance_kind (gov_proposal_finalized _ _) = 3
governance_kind (gov_proposal_executed _ _) = 4
governance_kind (gov_proposal_cancelled _ _) = 5
governance_kind (gov_quorum_updated _ _ _) = 6
governance_kind (gov_admin_transfer_initiated _ _) = 7
governance_kind (gov_admin_transfer_completed _ _) = 8
governance_kind (gov_admin_transferred _ _) = 9
governance_kind (gov_paused _) = 10
governance_kind (gov_unpaused _) = 11

abbrev pub token_kind : TokenEvent → ℕ
token_kind (token_initialized _ _) = 0
token_kind (token_transfer _ _ _) = 1
token_kind (token_approval _ _ _) = 2
token_kind (token_minted _ _ _) = 3
token_kind (token_burned _ _ _) = 4
token_kind (token_admin_transferred _ _) = 5

abbrev pub kind : CosmosVoteEvent → Bool × ℕ
kind (governance e) = (true, governance_kind e)
kind (token e) = (false, token_kind e)

-- The topic of an event stands at its kind's place among the tags.
governance_topic_at :
    (e : GovernanceEvent)
    → get_elem? (map (λ t. t.1) gov_tags) (governance_kind e) ≡ some (governance_topic e)
unfolding governance_topic gov_tags
governance_topic_at (gov_initialized _ _) = refl
governance_topic_at (gov_proposal_created _ _ _ _ _) = refl
governance_topic_at (gov_vote_cast _ _ _ _) = refl
governance_topic_at (gov_proposal_finalized _ _) = refl
governance_topic_at (gov_proposal_executed _ _) = refl
governance_topic_at (gov_proposal_cancelled _ _) = refl
governance_topic_at (gov_quorum_updated _ _ _) = refl
governance_topic_at (gov_admin_transfer_initiated _ _) = refl
governance_topic_at (gov_admin_transfer_completed _ _) = refl
governance_topic_at (gov_admin_transferred _ _) = refl
governance_topic_at (gov_paused _) = refl
governance_topic_at (gov_unpaused _) = refl

-- The topic of an event stands at its kind's place among the tags.
token_topic_at :
    (e : TokenEvent) → get_elem? (map (λ t. t.1) token_tags) (token_kind e) ≡ some (token_topic e)
unfolding token_topic token_tags
token_topic_at (token_initialized _ _) = refl
token_topic_at (token_transfer _ _ _) = refl
token_topic_at (token_approval _ _ _) = refl
token_topic_at (token_minted _ _ _) = refl
token_topic_at (token_burned _ _ _) = refl
token_topic_at (token_admin_transferred _ _) = refl

-- Every tag differs from those behind it.
abbrev all_differ : List JsString → Bool
all_differ [] = true
all_differ (s ∷ ss) = if any (λ t. s === t) ss then false else all_differ ss

differs_from :
    (s : JsString) (ss : List JsString) (i : ℕ)
    → any (λ t. s === t) ss ≡ false
    → get_elem? ss i ≢ some s
differs_from s [] i h e = cc
differs_from s (t ∷ ss) zero h e = cc (===_refl s)
differs_from s (t ∷ ss) (suc i) h e = ground (arith, differs_from s ss i)

behind_first :
    (t : JsString) (ss : List JsString)
    → all_differ (t ∷ ss) ≡ true
    → (any (λ u. t === u) ss ≡ false) × (all_differ ss ≡ true)
behind_first t ss h = ground arith

first_differs :
    (t s : JsString) (ss : List JsString) (i : ℕ)
    → all_differ (t ∷ ss) ≡ true
    → some t ≡ some s
    → get_elem? ss i ≡ some s
    → ⊥
first_differs t s ss i h a b = differs_from t ss i (behind_first t ss h).0 (b ∙ sym a)

place_of :
    (ss : List JsString) (i j : ℕ) (s : JsString)
    → all_differ ss ≡ true
    → get_elem? ss i ≡ some s
    → get_elem? ss j ≡ some s
    → i ≡ j
place_of [] i j s h a b = cc
place_of (t ∷ ss) zero zero s h a b = refl
place_of (t ∷ ss) zero (suc j) s h a b = absurd (first_differs t s ss j h a b)
place_of (t ∷ ss) (suc i) zero s h a b = absurd (first_differs t s ss i h b a)
place_of (t ∷ ss) (suc i) (suc j) s h a b = ap suc (place_of ss i j s (behind_first t ss h).1 a b)

governance_differ : all_differ (map (λ t. t.1) gov_tags) ≡ true
unfolding gov_tags js ◌===◌
governance_differ = refl

token_differ : all_differ (map (λ t. t.1) token_tags) ≡ true
unfolding token_tags js ◌===◌
token_differ = refl

contracts_differ : js "gov" ≢ js "token"
unfolding js ◌===◌
contracts_differ = differ (js "gov") (js "token") refl

-- The two topics of an event tell which of the eighteen interfaces it is of.
pub topics-kind : (e f : CosmosVoteEvent) → topics e ≡ topics f → kind e ≡ kind f
unfolding topics
topics-kind (governance e) (governance f) h =
    ap (λ n. (true, n))
      (place_of (map (λ t. t.1) gov_tags) (governance_kind e) (governance_kind f)
        (governance_topic f) governance_differ (governance_topic_at e ∙ ap (λ t. some t.1) h)
        (governance_topic_at f))
topics-kind (token e) (token f) h =
    ap (λ n. (false, n))
      (place_of (map (λ t. t.1) token_tags) (token_kind e) (token_kind f) (token_topic f)
        token_differ (token_topic_at e ∙ ap (λ t. some t.1) h) (token_topic_at f))
topics-kind (governance e) (token f) h = absurd (contracts_differ (ap (λ t. t.0) h))
topics-kind (token e) (governance f) h = absurd (contracts_differ (sym (ap (λ t. t.0) h)))
