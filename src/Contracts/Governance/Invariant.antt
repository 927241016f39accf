-- ===== src/Contracts/Governance/Invariant.antt =====
-- contracts/governance/src/lib.rs: the storage after every call.
use cosmosvote.Prelude.{
  ℕ, ◌+◌, ◌≡◌, refl, sym, ap, ◌∙◌, subst, Option, none, some, false, not, [], ◌∷◌, ◌++◌, arith,
  JsString, ◌===◌, select, any, HasDistinct, HasDistinct-select, HasDistinct-append_one, ok,
}
use cosmosvote.Frontend.Proposals.{VoteType, yes, no, abstain}
use cosmosvote.Contracts.Governance.{Address, Proposal, Ballot, State, Env, put_at, set_proposal}
use cosmosvote.Contracts.Governance.Voting.{
  has_voted, vote_record, subtract_weight, store_vote, cast_vote, remove_vote, retract_vote,
  store_change, change_vote,
}
use cosmosvote.Contracts.Governance.Proposing.{
  Draft, proposal_of, store_new, create_proposal, amend_proposal, finalise, Treasury, execute,
  cancel,
}
use cosmosvote.Contracts.Governance.Calls.{
  added, cast_vote-stored, retract_vote-stored, change_vote-stored,
}
use cosmosvote.Contracts.Governance.Ends.{
  create_proposal-stored, amend_proposal-stored, finalise-stored, execute-stored, cancel-stored,
}
use cosmosvote.Contracts.Governance.Tally.{
  counter, voters, voters_added, All-absent, Tallies-changed, Tallies-voter_count,
  voters-put_record, voters-remove_record, Tallies-added, Tallies-subtract_weight,
  vote_record-voter,
}
use cosmosvote.Contracts.Governance.Kept.{
  SlotKept, Fresh, Kept, put_slot, put_ballots, put_proposal, put_Fresh, Fresh-lt, SlotKept-new,
  counters_same, Kept-end_active,
}

module _ (s : State) (id : ℕ) (p : Proposal) (k : Kept s) (e : s.proposals id ≡ some p) where
  slot : SlotKept (some p) (s.voted id) (s.votes id)
  slot = subst (λ o. SlotKept o (s.voted id) (s.votes id)) e (k.0 id)

  below : (q : Proposal) → Fresh s.proposal_count (put_at id (some q) s.proposals)
  below q =
      put_Fresh id q s.proposals s.proposal_count k.1
        (Fresh-lt s.proposal_count id s.proposals p k.1 e)

  made : (q : Proposal) → s.ready ≡ false → (n : ℕ) → put_at id (some q) s.proposals n ≡ none
  made q r n = absurd (let x = k.2 r id in cc)

  -- A write of a proposal that keeps its counters.
  pub Kept-set_proposal :
      (q : Proposal) → ((v : VoteType) → counter v q ≡ counter v p) → Kept (set_proposal id q s)
  unfolding set_proposal
  Kept-set_proposal q h = (
    put_proposal id q s.proposals s.voted s.votes k.0 (λ v. h v ∙ slot.0 v, slot.1, slot.2),
    below q,
    made q,
  )

  Kept-store_vote :
      (b : Ballot)
      → has_voted s id b.voter ≡ false
      → Kept (store_vote id b (added b.vote b.weight p) s)
  unfolding store_vote set_proposal
  Kept-store_vote b n =
      let absent = subst (λ l. any (λ v. v === b.voter) l ≡ false) slot.1 n in
      (
        put_slot id _ s.proposals s.voted s.votes k.0 _ _ (
          Tallies-voter_count (added b.vote b.weight p) _ _
              (Tallies-added p (s.votes id) b absent slot.0),
          ap (λ l. l ++ b.voter ∷ []) slot.1 ∙ sym (voters_added b (s.votes id) absent),
          HasDistinct-append_one (λ a. a) (s.voted id) b.voter slot.2
              (All-absent b.voter (s.voted id) n),
        ),
        below _,
        made _,
      )

  distinct : HasDistinct (λ a. a) (voters (s.votes id))
  distinct = subst (HasDistinct (λ a. a)) slot.1 slot.2

  Kept-remove_vote :
      (b : Ballot) → vote_record b.voter (s.votes id) ≡ some b → Kept (remove_vote id b p s)
  unfolding remove_vote set_proposal
  Kept-remove_vote b r = (
    put_slot id _ s.proposals s.voted s.votes k.0 _ _ (
      Tallies-subtract_weight p (s.votes id) b.voter b distinct r slot.0,
      ap (select (λ v. not (v === b.voter))) slot.1
          ∙ sym (voters-remove_record b.voter (s.votes id)),
      HasDistinct-select (λ a. a) (λ v. not (v === b.voter)) (s.voted id) slot.2,
    ),
    below _,
    made _,
  )

  Kept-store_change :
      (b c : Ballot)
      → vote_record c.voter (s.votes id) ≡ some b
      → c.weight ≡ b.weight
      → Kept (store_change id c (added c.vote b.weight (subtract_weight b.vote b.weight p)) s)
  unfolding store_change set_proposal
  Kept-store_change b c r w = (
    put_ballots id _ s.proposals s.voted s.votes k.0 _ (
      Tallies-changed p (s.votes id) b c distinct r w slot.0,
      slot.1 ∙ sym (voters-put_record c (s.votes id) b r),
      slot.2,
    ),
    below _,
    made _,
  )

pub Kept-cast_vote :
    (env : Env) (voter : Address) (id : ℕ) (vote : VoteType) (s t : State)
    → Kept s
    → cast_vote env voter id vote s ≡ ok t
    → Kept t
Kept-cast_vote env voter id vote s t k h =
    let (p, e, a, n, w) = cast_vote-stored env voter id vote s t h in
    subst Kept w (Kept-store_vote s id p k e _ n)

pub Kept-retract_vote :
    (env : Env) (voter : Address) (id : ℕ) (s t : State)
    → Kept s
    → retract_vote env voter id s ≡ ok t
    → Kept t
Kept-retract_vote env voter id s t k h =
    let (p, b, e, a, r, w) = retract_vote-stored env voter id s t h in
    let mine =
      subst (λ a. vote_record a (s.votes id) ≡ some b)
        (sym (vote_record-voter voter (s.votes id) b r)) r in
    subst Kept w (Kept-remove_vote s id p k e b mine)

pub Kept-change_vote :
    (env : Env) (voter : Address) (id : ℕ) (vote : VoteType) (s t : State)
    → Kept s
    → change_vote env voter id vote s ≡ ok t
    → Kept t
Kept-change_vote env voter id vote s t k h =
    let (p, b, e, a, r, d, w) = change_vote-stored env voter id vote s t h in
    subst Kept w (Kept-store_change s id p k e b _ r refl)

new_counters :
    (env : Env) (proposer : Address) (draft : Draft) (id : ℕ) (v : VoteType)
    → counter v (proposal_of env proposer draft id) ≡ 0
unfolding proposal_of
new_counters env proposer draft id yes = refl
new_counters env proposer draft id no = refl
new_counters env proposer draft id abstain = refl

pub Kept-create_proposal :
    (env : Env) (proposer : Address) (draft : Draft) (s t : State)
    → Kept s
    → create_proposal env proposer draft s ≡ ok t
    → Kept t
unfolding store_new set_proposal proposal_of
Kept-create_proposal env proposer draft s t k h =
    let (r, w) = create_proposal-stored env proposer draft s t h in
    let none_yet =
      subst (λ o. SlotKept o (s.voted s.proposal_count) (s.votes s.proposal_count))
        (k.1 s.proposal_count (omega arith)) (k.0 s.proposal_count) in
    subst Kept w (
      put_proposal s.proposal_count (proposal_of env proposer draft s.proposal_count) s.proposals
          s.voted s.votes k.0
          (SlotKept-new _ _ _ none_yet (new_counters env proposer draft s.proposal_count)),
      put_Fresh s.proposal_count _ s.proposals (s.proposal_count + 1) (λ n m. k.1 n (omega arith))
          (omega arith),
      λ q. cc,
    )

pub Kept-amend_proposal :
    (proposer : Address) (id : ℕ) (title text : JsString) (s t : State)
    → Kept s
    → amend_proposal proposer id title text s ≡ ok t
    → Kept t
Kept-amend_proposal proposer id title text s t k h =
    let (p, e, a, w) = amend_proposal-stored proposer id title text s t h in
    subst Kept w (Kept-set_proposal s id p k e _ (counters_same p _ refl refl refl))

pub Kept-finalise : (env : Env) (id : ℕ) (s t : State) → Kept s → finalise env id s ≡ ok t → Kept t
Kept-finalise env id s t k h =
    let (p, e, a, l, w) = finalise-stored env id s t h in
    subst Kept w
      (Kept-end_active _ (Kept-set_proposal s id p k e _ (counters_same p _ refl refl refl)))

pub Kept-execute :
    (treasury : Option Treasury) (caller : Address) (id : ℕ) (s t : State)
    → Kept s
    → execute treasury caller id s ≡ ok t
    → Kept t
Kept-execute treasury caller id s t k h =
    let (p, e, a, q, w) = execute-stored treasury caller id s t h in
    subst Kept w (Kept-set_proposal s id p k e _ (counters_same p _ refl refl refl))

pub Kept-cancel :
    (caller : Address) (id : ℕ) (reason : Option JsString) (s t : State)
    → Kept s
    → cancel caller id reason s ≡ ok t
    → Kept t
Kept-cancel caller id reason s t k h =
    let (p, e, a, w) = cancel-stored caller id reason s t h in
    subst Kept w
      (Kept-end_active _ (Kept-set_proposal s id p k e _ (counters_same p _ refl refl refl)))
