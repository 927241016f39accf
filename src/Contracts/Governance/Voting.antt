-- ===== src/Contracts/Governance/Voting.antt =====
-- contracts/governance/src/lib.rs: the votes.
use cosmosvote.Prelude.{
  ℕ, ◌+◌, ◌-◌, Option, none, some, Bool, true, false, not, ◌&&◌, List, [], ◌∷◌, ◌++◌, ◌===◌, ltb,
  ◌==◌, if◌then◌else◌, select, any, Result, ok, throws, ◌>>=◌, ◌>>◌,
}
use cosmosvote.Frontend.Proposals.{VoteType, yes, no, abstain}
use cosmosvote.Frontend.Errors.{
  ContractError, proposal_not_active, voting_not_started, voting_period_ended, already_voted,
  admin_vote_restricted, no_voting_power, vote_not_found, vote_already_same,
}
use cosmosvote.Contracts.Governance.{
  Address, Proposal, Ballot, State, Env, put_at, refuse, assert_ready, found, is_active,
  checked_add, set_proposal,
}

-- storage.rs extends the time to live of the flag here even where there is none, which the host refuses: a call
-- by one who has no flag then fails. Times to live are left out, so that a vote can succeed in this model
-- where the contract's call fails.
abbrev pub has_voted : State → ℕ → Address → Bool
has_voted s id voter = any (λ v. v === voter) (s.voted id)

unfoldable pub vote_record : Address → List Ballot → Option Ballot
vote_record voter [] = none
vote_record voter (b ∷ bs) = if b.voter === voter then some b else vote_record voter bs

-- `set_vote_record`: a record that is there is replaced.
unfoldable pub put_record : Ballot → List Ballot → List Ballot
put_record ballot [] = ballot ∷ []
put_record ballot (b ∷ bs) =
    if b.voter === ballot.voter then ballot ∷ bs else b ∷ put_record ballot bs

unfoldable pub remove_record : Address → List Ballot → List Ballot
remove_record voter = select (λ b. not (b.voter === voter))

abbrev pub is_delegated : Option Address → Bool
is_delegated none = false
is_delegated (some a) = true

unfoldable pub add_weight : VoteType → ℕ → Proposal → Result ContractError Proposal
unfolding checked_add
add_weight yes weight p = do sum ← checked_add p.votes_yes weight; ok (record p { votes_yes = sum })
add_weight no weight p = do sum ← checked_add p.votes_no weight; ok (record p { votes_no = sum })
add_weight abstain weight p = do
  sum ← checked_add p.votes_abstain weight
  ok (record p { votes_abstain = sum })

unfoldable pub subtract_weight : VoteType → ℕ → Proposal → Proposal
subtract_weight yes weight p = record p { votes_yes = p.votes_yes - weight }
subtract_weight no weight p = record p { votes_no = p.votes_no - weight }
subtract_weight abstain weight p = record p { votes_abstain = p.votes_abstain - weight }

-- The three writes of `cast_vote`.
unfoldable pub store_vote : ℕ → Ballot → Proposal → State → State
unfolding put_record set_proposal
store_vote id ballot p s =
    record (set_proposal id (record p { voter_count = p.voter_count + 1 }) s) {
      voted = put_at id (s.voted id ++ ballot.voter ∷ []) s.voted;
      votes = put_at id (put_record ballot (s.votes id)) s.votes;
    }

unfoldable pub cast_vote : Env → Address → ℕ → VoteType → State → Result ContractError State
unfolding assert_ready add_weight store_vote
cast_vote env voter id vote s = do
  assert_ready s
  p ← found (s.proposals id)
  refuse (not (is_active p.state)) proposal_not_active
  refuse (ltb env.timestamp p.start_time) voting_not_started
  refuse (ltb p.end_time env.timestamp) voting_period_ended
  refuse (has_voted s id voter) already_voted
  refuse (s.restrict_admin_vote && (voter === s.admin && p.proposer === s.admin))
      admin_vote_restricted
  refuse (is_delegated (env.get_delegation voter)) no_voting_power
  refuse (env.balance_at voter p.snapshot_ledger == 0) no_voting_power
  q ← add_weight vote (env.balance_at voter p.snapshot_ledger) p
  ok (
      store_vote id
        (record { voter = voter; vote = vote; weight = env.balance_at voter p.snapshot_ledger }) q
        s)

abbrev pub recorded : Option Ballot → Result ContractError Ballot
recorded none = throws vote_not_found
recorded (some b) = ok b

-- The guards that `retract_vote` and `change_vote` share, up to the record.
unfoldable pub voted_record : Env → Address → ℕ → Proposal → State → Result ContractError Ballot
unfolding vote_record
voted_record env voter id p s = do
  refuse (not (is_active p.state)) proposal_not_active
  refuse (ltb p.end_time env.timestamp) voting_period_ended
  refuse (not (has_voted s id voter)) vote_not_found
  recorded (vote_record voter (s.votes id))

unfoldable pub remove_vote : ℕ → Ballot → Proposal → State → State
unfolding subtract_weight remove_record set_proposal
remove_vote id b p s = record (set_proposal id (subtract_weight b.vote b.weight p) s) {
  voted = put_at id (select (λ v. not (v === b.voter)) (s.voted id)) s.voted;
  votes = put_at id (remove_record b.voter (s.votes id)) s.votes;
}

unfoldable pub retract_vote : Env → Address → ℕ → State → Result ContractError State
unfolding assert_ready voted_record remove_vote
retract_vote env voter id s = do
  assert_ready s
  p ← found (s.proposals id)
  b ← voted_record env voter id p s
  ok (remove_vote id b p s)

unfoldable pub same_vote : VoteType → VoteType → Bool
same_vote yes yes = true
same_vote no no = true
same_vote abstain abstain = true
same_vote _ _ = false

unfoldable pub store_change : ℕ → Ballot → Proposal → State → State
unfolding put_record set_proposal
store_change id ballot p s = record (set_proposal id p s) {
  votes = put_at id (put_record ballot (s.votes id)) s.votes;
}

unfoldable pub change_vote : Env → Address → ℕ → VoteType → State → Result ContractError State
unfolding assert_ready voted_record subtract_weight add_weight same_vote store_change
change_vote env voter id new_vote s = do
  assert_ready s
  p ← found (s.proposals id)
  b ← voted_record env voter id p s
  refuse (same_vote b.vote new_vote) vote_already_same
  q ← add_weight new_vote b.weight (subtract_weight b.vote b.weight p)
  ok (store_change id (record { voter = voter; vote = new_vote; weight = b.weight }) q s)
