-- ===== src/Contracts/Governance/Accepting.antt =====
-- contracts/governance/src/lib.rs: what a vote that is cast requires and stores.
use cosmosvote.Prelude.{
  bind-ok, lt→ltb, ℕ, ◌+◌, ◌≤◌, ◌<◌, ◌≡◌, refl, sym, ◌∙◌, subst, ◌≢◌, Option, none, some, true,
  false, not, ◌&&◌, List, [], ◌∷◌, ◌++◌, arith, ◌===◌, ===_refl, ltb, ◌==◌, ==_iff, any, In,
  any_iff, ok,
}
use cosmosvote.Frontend.Proposals.{active, VoteType, yes, no, abstain}
use cosmosvote.Frontend.Errors.{
  proposal_not_active, voting_not_started, voting_period_ended, already_voted,
  admin_vote_restricted, no_voting_power,
}
use cosmosvote.Contracts.Governance.{
  Address, Ballot, set_proposal, Proposal, State, Env, refuse, assert_ready, found, is_active,
  i128_limit, checked_add,
}
use cosmosvote.Contracts.Governance.Voting.{
  has_voted, is_delegated, add_weight, put_record, store_vote, cast_vote,
}
use cosmosvote.Contracts.Governance.Calls.{
  refuse-ok, found-ok, not-false, is_active-active, added, cast_vote-stored,
}
use cosmosvote.Contracts.Governance.Tally.{counter, put_record_fresh}
use cosmosvote.Contracts.Governance.Kept.{SlotKept}
use cosmosvote.Contracts.Governance.Tallied.{history-Kept}
use cosmosvote.Contracts.Governance.Admin.{deployed}
use cosmosvote.Contracts.Governance.History.{Call, history}

-- What a vote on a proposal requires.
abbrev pub IsAccepted : Env → Address → ℕ → VoteType → State → Proposal → Type 0
IsAccepted env voter id vote s p =
    (s.ready ≡ true)
    × (s.paused ≡ false)
    × (p.state ≡ active)
    × (p.start_time ≤ env.timestamp)
    × (env.timestamp ≤ p.end_time)
    × ¬ In voter (s.voted id)
    × (s.restrict_admin_vote && (voter === s.admin && p.proposer === s.admin) ≡ false)
    × (env.get_delegation voter ≡ none)
    × (0 < env.balance_at voter p.snapshot_ledger)
    × (counter vote p + env.balance_at voter p.snapshot_ledger < i128_limit)

-- The proposal with one more voter, whose weight is counted for the vote and for no other.
abbrev pub counted : VoteType → ℕ → Proposal → Proposal
counted yes w p = record p { votes_yes = p.votes_yes + w; voter_count = p.voter_count + 1 }
counted no w p = record p { votes_no = p.votes_no + w; voter_count = p.voter_count + 1 }
counted abstain w p = record p {
  votes_abstain = p.votes_abstain + w;
  voter_count = p.voter_count + 1;
}

-- The proposal is replaced and a ballot and a voter are added to it; all else stays.
abbrev pub IsStored : ℕ → Ballot → Proposal → State → State → Type 0
IsStored id b q s t =
    (t.proposals id ≡ some q)
    × (t.votes id ≡ s.votes id ++ b ∷ [])
    × (t.voted id ≡ s.voted id ++ b.voter ∷ [])
    × ((n : ℕ)
        → n ≢ id
        → (t.proposals n ≡ s.proposals n) × (t.votes n ≡ s.votes n) × (t.voted n ≡ s.voted n))
    × (t.proposal_count ≡ s.proposal_count)
    × (t.active_count ≡ s.active_count)

assert_ready-ok :
    (s : State) (u : Unit {0}) → assert_ready s ≡ ok u → (s.ready ≡ true) × (s.paused ≡ false)
unfolding assert_ready
assert_ready-ok s u h = ground arith

checked_add-lt : (a b c : ℕ) → checked_add a b ≡ ok c → a + b < i128_limit
unfolding checked_add
checked_add-lt a b c h = ground arith

add_weight-lt :
    (v : VoteType) (w : ℕ) (p q : Proposal) → add_weight v w p ≡ ok q → counter v p + w < i128_limit
unfolding add_weight
add_weight-lt yes w p q h =
    let (c, e, f) = bind-ok (checked_add p.votes_yes w) _ q h in checked_add-lt p.votes_yes w c e
add_weight-lt no w p q h =
    let (c, e, f) = bind-ok (checked_add p.votes_no w) _ q h in checked_add-lt p.votes_no w c e
add_weight-lt abstain w p q h =
    let (c, e, f) = bind-ok (checked_add p.votes_abstain w) _ q h in
    checked_add-lt p.votes_abstain w c e

not_below : (m n : ℕ) → ltb m n ≡ false → n ≤ m
not_below m n h = grind (arith, lt→ltb m n)

positive : (n : ℕ) → n == 0 ≡ false → 0 < n
positive n h = grind (arith, ==_iff n 0)

undelegated : (o : Option Address) → is_delegated o ≡ false → o ≡ none
undelegated none h = refl
undelegated (some a) h = cc

not-any-In :
    (voter : Address) (vs : List Address) → any (λ v. v === voter) vs ≡ false → ¬ In voter vs
not-any-In voter vs h m = let x = (any_iff (λ v. v === voter) vs).1 (voter, m, ===_refl voter) in cc

accepted :
    (env : Env) (voter : Address) (id : ℕ) (vote : VoteType) (s t : State)
    → cast_vote env voter id vote s ≡ ok t
    → (p : Proposal) × (s.proposals id ≡ some p) × IsAccepted env voter id vote s p
unfolding cast_vote
accepted env voter id vote s t h =
    let (u0, e0, h0) = bind-ok (assert_ready s) _ t h in
    let (p, e1, h1) = bind-ok (found (s.proposals id)) _ t h0 in
    let (u2, e2, h2) = bind-ok (refuse (not (is_active p.state)) proposal_not_active) _ t h1 in
    let (u3, e3, h3) =
      bind-ok (refuse (ltb env.timestamp p.start_time) voting_not_started) _ t h2 in
    let (u4, e4, h4) = bind-ok (refuse (ltb p.end_time env.timestamp) voting_period_ended) _ t h3 in
    let (u5, e5, h5) = bind-ok (refuse (has_voted s id voter) already_voted) _ t h4 in
    let (u6, e6, h6) =
      bind-ok
        (refuse (s.restrict_admin_vote && (voter === s.admin && p.proposer === s.admin))
          admin_vote_restricted)
        _ t h5 in
    let (u7, e7, h7) =
      bind-ok (refuse (is_delegated (env.get_delegation voter)) no_voting_power) _ t h6 in
    let (u8, e8, h8) =
      bind-ok (refuse (env.balance_at voter p.snapshot_ledger == 0) no_voting_power) _ t h7 in
    let (q, e9, h9) = bind-ok (add_weight vote (env.balance_at voter p.snapshot_ledger) p) _ t h8 in
    let (r, f) = assert_ready-ok s u0 e0 in
    (
      p,
      found-ok (s.proposals id) p e1,
      (
        r,
        f,
        is_active-active p.state (not-false (is_active p.state) (refuse-ok _ _ u2 e2)),
        not_below _ _ (refuse-ok (ltb env.timestamp p.start_time) _ u3 e3),
        not_below _ _ (refuse-ok (ltb p.end_time env.timestamp) _ u4 e4),
        not-any-In voter (s.voted id) (refuse-ok _ _ u5 e5),
        refuse-ok _ _ u6 e6,
        undelegated (env.get_delegation voter) (refuse-ok _ _ u7 e7),
        positive (env.balance_at voter p.snapshot_ledger) (refuse-ok _ _ u8 e8),
        add_weight-lt vote _ p q e9,
      ),
    )

added-counted :
    (v : VoteType) (w : ℕ) (p : Proposal)
    → record (added v w p) { voter_count = (added v w p).voter_count + 1 } ≡ counted v w p
unfolding added
added-counted yes w p = refl
added-counted no w p = refl
added-counted abstain w p = refl

store_vote-IsStored :
    (id : ℕ) (b : Ballot) (q : Proposal) (s : State)
    → put_record b (s.votes id) ≡ s.votes id ++ b ∷ []
    → IsStored id b (record q { voter_count = q.voter_count + 1 }) s (store_vote id b q s)
unfolding store_vote set_proposal
store_vote-IsStored id b q s h =
    let same = (==_iff id id).1 refl in
    (
      rw same refl,
      rw (same, h) refl,
      rw same refl,
      λ n d.
          let other : (n == id) ≡ false = grind (arith, ==_iff n id) in
          (rw other refl, rw other refl, rw other refl),
      refl,
      refl,
    )

-- A vote that a contract which was deployed and called in any way does not refuse is cast while the
-- contract is ready and not paused, on a proposal that is there and active, whose time has come and is not
-- over, by a voter who has not voted on it, is not an administrator who may not vote on an own
-- proposal, has delegated to no one and has a balance at the proposal's snapshot, which does not
-- overflow the tally. A ballot with this balance is added to those of the proposal, the voter to those
-- who have voted, and the balance to the tally of this vote; the number of voters rises by one, and
-- no other field of the proposal, no other proposal and no other ballot changes.
pub cast_vote_lem :
    (cs : List (Env × Call)) (env : Env) (voter : Address) (id : ℕ) (vote : VoteType) (t : State)
    → cast_vote env voter id vote (history deployed cs) ≡ ok t
    → (p : Proposal) × ((history deployed cs).proposals id ≡ some p)
      × IsAccepted env voter id vote (history deployed cs) p
      × (let w = env.balance_at voter p.snapshot_ledger in
          IsStored id
            (record { voter = voter; vote = vote; weight = w })
            (counted vote w p)
            (history deployed cs)
            t)
cast_vote_lem cs env voter id vote t h =
    let s = history deployed cs in
    let k = history-Kept cs in
    let (p, e, a, n, stored) = cast_vote-stored env voter id vote s t h in
    let (p2, e2, acc) = accepted env voter id vote s t h in
    let same : p2 ≡ p = let x : ◌≡◌ {A = Option Proposal} (some p2) (some p) = sym e2 ∙ e in cc in
    let w = env.balance_at voter p.snapshot_ledger in
    let b : Ballot = record { voter = voter; vote = vote; weight = w } in
    let slot = subst (λ o. SlotKept o (s.voted id) (s.votes id)) e (k.0 id) in
    let absent = subst (λ l. any (λ v. v === voter) l ≡ false) slot.1 n in
    (
      p,
      e,
      subst (IsAccepted env voter id vote s) same acc,
      subst (λ q. IsStored id b q s t) (added-counted vote w p)
          (subst (IsStored id b _ s) stored
            (store_vote-IsStored id b (added vote w p) s (put_record_fresh b (s.votes id) absent))),
    )
