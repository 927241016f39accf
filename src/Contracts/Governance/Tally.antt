-- ===== src/Contracts/Governance/Tally.antt =====
-- What the tally of a proposal in contracts/governance/src/lib.rs counts, and how the votes that are stored
-- move it.
use cosmosvote.Prelude.{
  ℕ, ◌+◌, ◌-◌, ◌≡◌, refl, sym, ap, ◌∙◌, subst, ◌≢◌, inl, inr, Option, some, false, not, List, [],
  ◌∷◌, ◌++◌, map, arith, ◌===◌, ===_iff, if◌then◌else◌, Bool-cases, select, any, All, HasDistinct,
}
use cosmosvote.Frontend.Proposals.{VoteType, yes, no, abstain}
use cosmosvote.Contracts.Governance.{Address, Proposal, Ballot}
use cosmosvote.Contracts.Governance.Voting.{
  vote_record, put_record, remove_record, subtract_weight, same_vote,
}
use cosmosvote.Contracts.Governance.Calls.{added}

-- The weight that one ballot has for a vote.
unfoldable pub share : VoteType → Ballot → ℕ
unfolding same_vote
share v b = if same_vote b.vote v then b.weight else 0

unfoldable pub weights : VoteType → List Ballot → ℕ
weights v [] = 0
weights v (b ∷ bs) = share v b + weights v bs

abbrev pub counter : VoteType → Proposal → ℕ
counter yes p = p.votes_yes
counter no p = p.votes_no
counter abstain p = p.votes_abstain

-- The three counters are the weights of the ballots.
abbrev pub Tallies : Proposal → List Ballot → Type 0
Tallies p bs = (v : VoteType) → counter v p ≡ weights v bs

abbrev pub voters : List Ballot → List Address
voters = map (λ b. b.voter)

weights_append_one :
    (v : VoteType) (bs : List Ballot) (b : Ballot)
    → weights v (bs ++ b ∷ []) ≡ weights v bs + share v b
unfolding weights
weights_append_one v [] b = omega arith
weights_append_one v (c ∷ bs) b = let h = weights_append_one v bs b in omega arith

voters_append_one :
    (bs : List Ballot) (b : Ballot) → voters (bs ++ b ∷ []) ≡ voters bs ++ b.voter ∷ []
voters_append_one [] b = refl
voters_append_one (c ∷ bs) b = ap (λ l. c.voter ∷ l) (voters_append_one bs b)

-- The record of one who has not voted goes to the end.
pub put_record_fresh :
    (b : Ballot) (bs : List Ballot)
    → any (λ v. v === b.voter) (voters bs) ≡ false
    → put_record b bs ≡ bs ++ b ∷ []
unfolding put_record
put_record_fresh b [] h = refl
put_record_fresh b (c ∷ bs) h = ground (arith, put_record_fresh b bs)

pub vote_record-voter :
    (voter : Address) (bs : List Ballot) (b : Ballot)
    → vote_record voter bs ≡ some b
    → b.voter ≡ voter
unfolding vote_record
vote_record-voter voter [] b h = cc
vote_record-voter voter (c ∷ bs) b h = elim (Bool-cases (c.voter === voter)) [
  | inl e ↦ ground (arith, ===_iff c.voter voter)
  | inr e ↦ ground (arith, vote_record-voter voter bs b)
]

-- The record of one who has voted is replaced where it stands.
pub voters-put_record :
    (c : Ballot) (bs : List Ballot) (b : Ballot)
    → vote_record c.voter bs ≡ some b
    → voters (put_record c bs) ≡ voters bs
unfolding vote_record put_record
voters-put_record c [] b h = cc
voters-put_record c (d ∷ bs) b h = elim (Bool-cases (d.voter === c.voter)) [
  | inl e ↦ ground (arith, ===_iff d.voter c.voter)
  | inr e ↦ ground (arith, voters-put_record c bs b)
]

pub weights-put_record :
    (v : VoteType) (c : Ballot) (bs : List Ballot) (b : Ballot)
    → vote_record c.voter bs ≡ some b
    → weights v (put_record c bs) + share v b ≡ weights v bs + share v c
unfolding vote_record put_record weights
weights-put_record v c [] b h = cc
weights-put_record v c (d ∷ bs) b h = elim (Bool-cases (d.voter === c.voter)) [
  | inl e ↦ ground arith
  | inr e ↦ let ih = weights-put_record v c bs b (rw e at h) in rw e (omega arith)
]

remove_record_absent :
    (voter : Address) (bs : List Ballot)
    → All (λ y. voter ≢ y) (voters bs)
    → remove_record voter bs ≡ bs
unfolding remove_record
remove_record_absent voter [] a = refl
remove_record_absent voter (c ∷ bs) a =
    ground (arith, remove_record_absent voter bs, ===_iff c.voter voter)

-- The ballots without a voter's.
pub weights-remove_record :
    (v : VoteType) (voter : Address) (bs : List Ballot) (b : Ballot)
    → HasDistinct (λ a. a) (voters bs)
    → vote_record voter bs ≡ some b
    → weights v bs ≡ weights v (remove_record voter bs) + share v b
unfolding vote_record remove_record weights
weights-remove_record v voter [] b d h = cc
weights-remove_record v voter (c ∷ bs) b d h = elim (Bool-cases (c.voter === voter)) [
  | inl e ↦
      let whole : ◌≡◌ {A = Option Ballot} (some c) (some b) = rw e at h in
      let same : c ≡ b = cc in
      let away =
        remove_record_absent voter bs
          (subst (λ a. All (λ y. a ≢ y) (voters bs)) ((===_iff c.voter voter).0 e) d.0) in
      rw (e, away) (omega (arith, ap (λ x. share v x) same))
  | inr e ↦ let ih = weights-remove_record v voter bs b d.1 (rw e at h) in rw e (omega arith)
]

pub voters-remove_record :
    (voter : Address) (bs : List Ballot)
    → voters (remove_record voter bs) ≡ select (λ v. not (v === voter)) (voters bs)
unfolding remove_record
voters-remove_record voter [] = refl
voters-remove_record voter (c ∷ bs) = ground (arith, voters-remove_record voter bs)

counter-added :
    (v x : VoteType) (w : ℕ) (p : Proposal)
    → counter v (added x w p) ≡ counter v p + (if same_vote x v then w else 0)
unfolding added same_vote
counter-added yes yes w p = omega arith
counter-added no yes w p = omega arith
counter-added abstain yes w p = omega arith
counter-added yes no w p = omega arith
counter-added no no w p = omega arith
counter-added abstain no w p = omega arith
counter-added yes abstain w p = omega arith
counter-added no abstain w p = omega arith
counter-added abstain abstain w p = omega arith

counter-subtract_weight :
    (v x : VoteType) (w : ℕ) (p : Proposal)
    → counter v (subtract_weight x w p) ≡ counter v p - (if same_vote x v then w else 0)
unfolding subtract_weight same_vote
counter-subtract_weight yes yes w p = omega arith
counter-subtract_weight no yes w p = omega arith
counter-subtract_weight abstain yes w p = omega arith
counter-subtract_weight yes no w p = omega arith
counter-subtract_weight no no w p = omega arith
counter-subtract_weight abstain no w p = omega arith
counter-subtract_weight yes abstain w p = omega arith
counter-subtract_weight no abstain w p = omega arith
counter-subtract_weight abstain abstain w p = omega arith

-- A ballot of one who has not voted is added to the tally.
pub Tallies-added :
    (p : Proposal) (bs : List Ballot) (b : Ballot)
    → any (λ v. v === b.voter) (voters bs) ≡ false
    → Tallies p bs
    → Tallies (added b.vote b.weight p) (put_record b bs)
unfolding share
Tallies-added p bs b h t v =
    counter-added v b.vote b.weight p
    ∙ ap (λ n. n + share v b) (t v)
    ∙ sym (weights_append_one v bs b)
    ∙ ap (weights v) (sym (put_record_fresh b bs h))

-- A ballot is taken off the tally.
pub Tallies-subtract_weight :
    (p : Proposal) (bs : List Ballot) (voter : Address) (b : Ballot)
    → HasDistinct (λ a. a) (voters bs)
    → vote_record voter bs ≡ some b
    → Tallies p bs
    → Tallies (subtract_weight b.vote b.weight p) (remove_record voter bs)
unfolding share
Tallies-subtract_weight p bs voter b d h t v =
    let e = weights-remove_record v voter bs b d h in
    rw (counter-subtract_weight v b.vote b.weight p, t v, e) (omega arith)

-- A ballot is taken off the tally, and one of the same weight put in its place.
pub Tallies-changed :
    (p : Proposal) (bs : List Ballot) (b c : Ballot)
    → HasDistinct (λ a. a) (voters bs)
    → vote_record c.voter bs ≡ some b
    → c.weight ≡ b.weight
    → Tallies p bs
    → Tallies (added c.vote b.weight (subtract_weight b.vote b.weight p)) (put_record c bs)
unfolding share
Tallies-changed p bs b c d h w t v =
    let off = weights-remove_record v c.voter bs b d h in
    let on = weights-put_record v c bs b h in
    let same = ap (λ n. if same_vote c.vote v then n else 0) w in
    rw
      (
        counter-added v c.vote b.weight (subtract_weight b.vote b.weight p),
        counter-subtract_weight v b.vote b.weight p,
        t v,
      )
      (omega arith)

-- The tally does not read the number of voters.
pub Tallies-voter_count :
    (p : Proposal) (n : ℕ) (bs : List Ballot)
    → Tallies p bs
    → Tallies (record p { voter_count = n }) bs
Tallies-voter_count p n bs t yes = t yes
Tallies-voter_count p n bs t no = t no
Tallies-voter_count p n bs t abstain = t abstain

pub voters_added :
    (b : Ballot) (bs : List Ballot)
    → any (λ v. v === b.voter) (voters bs) ≡ false
    → voters (put_record b bs) ≡ voters bs ++ b.voter ∷ []
voters_added b bs h = ap voters (put_record_fresh b bs h) ∙ voters_append_one bs b

-- One who is not among the voters is none of them.
pub All-absent :
    (a : Address) (vs : List Address) → any (λ v. v === a) vs ≡ false → All (λ v. v ≢ a) vs
All-absent a [] h = tt
All-absent a (v ∷ vs) h = ground (arith, All-absent a vs, ===_iff v a)
