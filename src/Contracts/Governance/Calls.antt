-- ===== src/Contracts/Governance/Calls.antt =====
-- What a call of contracts/governance/src/lib.rs has found and stored when it succeeds.
use cosmosvote.Prelude.{
  bind-ok, ℕ, ◌+◌, ◌≡◌, refl, ap, ◌∙◌, Option, none, some, Bool, true, false, not, ◌&&◌, arith,
  ◌===◌, ltb, ◌==◌, Result, ok,
}
use cosmosvote.Frontend.Proposals.{
  ProposalState, active, passed, rejected, executed, cancelled, VoteType, yes, no, abstain,
}
use cosmosvote.Frontend.Errors.{
  ContractError, proposal_not_active, voting_not_started, voting_period_ended, already_voted,
  admin_vote_restricted, no_voting_power, vote_not_found, vote_already_same,
}
use cosmosvote.Contracts.Governance.{
  Address, Proposal, Ballot, State, Env, refuse, assert_ready, found, is_active, checked_add,
}
use cosmosvote.Contracts.Governance.Voting.{
  has_voted, vote_record, add_weight, subtract_weight, is_delegated, store_vote, cast_vote,
  voted_record, recorded, remove_vote, retract_vote, same_vote, store_change, change_vote,
}

pub refuse-ok : (b : Bool) (e : ContractError) (u : Unit {0}) → refuse b e ≡ ok u → b ≡ false
refuse-ok true e u h = cc
refuse-ok false e u h = refl

pub found-ok : (o : Option Proposal) (p : Proposal) → found o ≡ ok p → o ≡ some p
found-ok none p h = cc
found-ok (some q) p h = cc

recorded-ok : (o : Option Ballot) (b : Ballot) → recorded o ≡ ok b → o ≡ some b
recorded-ok none b h = cc
recorded-ok (some c) b h = cc

pub not-false : (b : Bool) → not b ≡ false → b ≡ true
not-false b h = ground arith

pub is_active-active : (x : ProposalState) → is_active x ≡ true → x ≡ active
is_active-active active h = refl
is_active-active passed h = cc
is_active-active rejected h = cc
is_active-active executed h = cc
is_active-active cancelled h = cc

pub ok_injective {ℓ} :
    {A : Type ℓ} {a b : A} → ◌≡◌ {A = Result ContractError A} (ok a) (ok b) → a ≡ b
ok_injective h = cc

-- The tally that a vote makes, without the check for overflow.
unfoldable pub added : VoteType → ℕ → Proposal → Proposal
added yes weight p = record p { votes_yes = p.votes_yes + weight }
added no weight p = record p { votes_no = p.votes_no + weight }
added abstain weight p = record p { votes_abstain = p.votes_abstain + weight }

pub checked_add-ok : (a b c : ℕ) → checked_add a b ≡ ok c → a + b ≡ c
unfolding checked_add
checked_add-ok a b c h = ground arith

add_weight-added :
    (v : VoteType) (w : ℕ) (p q : Proposal) → add_weight v w p ≡ ok q → added v w p ≡ q
unfolding add_weight added
add_weight-added yes w p q h =
    let (c, e, f) = bind-ok (checked_add p.votes_yes w) _ q h in
    ap (λ x. record p { votes_yes = x }) (checked_add-ok p.votes_yes w c e) ∙ ok_injective f
add_weight-added no w p q h =
    let (c, e, f) = bind-ok (checked_add p.votes_no w) _ q h in
    ap (λ x. record p { votes_no = x }) (checked_add-ok p.votes_no w c e) ∙ ok_injective f
add_weight-added abstain w p q h =
    let (c, e, f) = bind-ok (checked_add p.votes_abstain w) _ q h in
    ap (λ x. record p { votes_abstain = x }) (checked_add-ok p.votes_abstain w c e) ∙ ok_injective f

-- A vote that is cast is on an active proposal, by a voter who has not voted.
pub cast_vote-stored :
    (env : Env) (voter : Address) (id : ℕ) (vote : VoteType) (s t : State)
    → cast_vote env voter id vote s ≡ ok t
    → (p : Proposal) × (s.proposals id ≡ some p)
      × (p.state ≡ active)
      × (has_voted s id voter ≡ false)
      × (store_vote id
            (record { voter = voter; vote = vote; weight = env.balance_at voter p.snapshot_ledger })
            (added vote (env.balance_at voter p.snapshot_ledger) p)
            s
          ≡ t)
unfolding cast_vote
cast_vote-stored env voter id vote s t h =
    let (u0, e0, h0) = bind-ok (assert_ready s) _ t h in
    let (p, e1, h1) = bind-ok (found (s.proposals id)) _ t h0 in
    let (u2, e2, h2) = bind-ok (refuse (not (is_active p.state)) proposal_not_active) _ t h1 in
    let (u3, e3, h3) =
      bind-ok (refuse (ltb env.timestamp p.start_time) voting_not_started) _ t h2 in
    let (u4, e4, h4) = bind-ok (refuse (ltb p.end_time env.timestamp) voting_period_ended) _ t h3 in
    let (u5, e5, h5) = bind-ok (refuse (has_voted s id voter) already_voted) _ t h4 in
    let (u6, e6, h6) =
      bind-ok
        (refuse (s.restrict_admin_vote && (voter === s.admin && p.proposer === s.admin))
          admin_vote_restricted)
        _ t h5 in
    let (u7, e7, h7) =
      bind-ok (refuse (is_delegated (env.get_delegation voter)) no_voting_power) _ t h6 in
    let (u8, e8, h8) =
      bind-ok (refuse (env.balance_at voter p.snapshot_ledger == 0) no_voting_power) _ t h7 in
    let (q, e9, h9) = bind-ok (add_weight vote (env.balance_at voter p.snapshot_ledger) p) _ t h8 in
    (
      p,
      found-ok (s.proposals id) p e1,
      is_active-active p.state (not-false (is_active p.state) (refuse-ok _ _ u2 e2)),
      refuse-ok _ _ u5 e5,
      ap
            (λ x.
              store_vote id
                (record {
                  voter = voter;
                  vote = vote;
                  weight = env.balance_at voter p.snapshot_ledger;
                })
                x s)
            (add_weight-added vote _ p q e9)
          ∙ ok_injective h9,
    )

-- What `retract_vote` and `change_vote` have found when they go on.
voted_record-ok :
    (env : Env) (voter : Address) (id : ℕ) (p : Proposal) (s : State) (b : Ballot)
    → voted_record env voter id p s ≡ ok b
    → (p.state ≡ active) × (vote_record voter (s.votes id) ≡ some b)
unfolding voted_record
voted_record-ok env voter id p s b h =
    let (u0, e0, h0) = bind-ok (refuse (not (is_active p.state)) proposal_not_active) _ b h in
    let (u1, e1, h1) = bind-ok (refuse (ltb p.end_time env.timestamp) voting_period_ended) _ b h0 in
    let (u2, e2, h2) = bind-ok (refuse (not (has_voted s id voter)) vote_not_found) _ b h1 in
    (
      is_active-active p.state (not-false (is_active p.state) (refuse-ok _ _ u0 e0)),
      recorded-ok (vote_record voter (s.votes id)) b h2,
    )

-- A vote that is retracted is that of a ballot on an active proposal.
pub retract_vote-stored :
    (env : Env) (voter : Address) (id : ℕ) (s t : State)
    → retract_vote env voter id s ≡ ok t
    → (p : Proposal) × (b : Ballot) × (s.proposals id ≡ some p)
      × (p.state ≡ active)
      × (vote_record voter (s.votes id) ≡ some b)
      × (remove_vote id b p s ≡ t)
unfolding retract_vote
retract_vote-stored env voter id s t h =
    let (u0, e0, h0) = bind-ok (assert_ready s) _ t h in
    let (p, e1, h1) = bind-ok (found (s.proposals id)) _ t h0 in
    let (b, e2, h2) = bind-ok (voted_record env voter id p s) _ t h1 in
    let (a, r) = voted_record-ok env voter id p s b e2 in
    (p, b, found-ok (s.proposals id) p e1, a, r, ok_injective h2)

-- A vote that is changed is that of a ballot on an active proposal; its weight stays.
pub change_vote-stored :
    (env : Env) (voter : Address) (id : ℕ) (vote : VoteType) (s t : State)
    → change_vote env voter id vote s ≡ ok t
    → (p : Proposal) × (b : Ballot) × (s.proposals id ≡ some p)
      × (p.state ≡ active)
      × (vote_record voter (s.votes id) ≡ some b)
      × (same_vote b.vote vote ≡ false)
      × (store_change id
            (record { voter = voter; vote = vote; weight = b.weight })
            (added vote b.weight (subtract_weight b.vote b.weight p))
            s
          ≡ t)
unfolding change_vote
change_vote-stored env voter id vote s t h =
    let (u0, e0, h0) = bind-ok (assert_ready s) _ t h in
    let (p, e1, h1) = bind-ok (found (s.proposals id)) _ t h0 in
    let (b, e2, h2) = bind-ok (voted_record env voter id p s) _ t h1 in
    let (a, r) = voted_record-ok env voter id p s b e2 in
    let (u3, e3, h3) = bind-ok (refuse (same_vote b.vote vote) vote_already_same) _ t h2 in
    let (q, e4, h4) =
      bind-ok (add_weight vote b.weight (subtract_weight b.vote b.weight p)) _ t h3 in
    (
      p,
      b,
      found-ok (s.proposals id) p e1,
      a,
      r,
      refuse-ok _ _ u3 e3,
      ap (λ x. store_change id (record { voter = voter; vote = vote; weight = b.weight }) x s)
            (add_weight-added vote b.weight _ q e4)
          ∙ ok_injective h4,
    )
