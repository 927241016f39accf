-- ===== src/Contracts/Governance/Kept.antt =====
-- What holds of the storage of contracts/governance/src/lib.rs at all times, and that a write keeps it.
use cosmosvote.Prelude.{
  ltb→lt, lt→ltb, ℕ, ◌≤◌, ◌<◌, ◌≡◌, sym, ap, ◌∙◌, subst, inl, inr, Option, none, some, Bool, false,
  List, [], arith, ltb, ◌==◌, ==_iff, Bool-cases, HasDistinct,
}
use cosmosvote.Frontend.Proposals.{VoteType, yes, no, abstain}
use cosmosvote.Contracts.Governance.{Address, Proposal, Ballot, State, put_at, end_active}
use cosmosvote.Contracts.Governance.Tally.{counter, weights, Tallies, voters}

-- A proposal's ballots are counted in its tally, their voters are those who have voted, and no one has
-- voted twice. Where there is no proposal, there are no ballots.
abbrev pub SlotKept : Option Proposal → List Address → List Ballot → Type 0
SlotKept none vs bs = (vs ≡ []) × (bs ≡ [])
SlotKept (some p) vs bs = Tallies p bs × (vs ≡ voters bs) × HasDistinct (λ a. a) vs

-- The proposals are below the count.
abbrev pub Fresh : ℕ → (ℕ → Option Proposal) → Type 0
Fresh count proposals = (id : ℕ) → count ≤ id → proposals id ≡ none

-- Before the contract is initialised there are none.
abbrev pub Unmade : Bool → (ℕ → Option Proposal) → Type 0
Unmade ready proposals = ready ≡ false → (id : ℕ) → proposals id ≡ none

abbrev pub Kept : State → Type 0
Kept s =
    ((id : ℕ) → SlotKept (s.proposals id) (s.voted id) (s.votes id))
    × Fresh s.proposal_count s.proposals
    × Unmade s.ready s.proposals

module _ (id : ℕ) (q : Proposal) (proposals : ℕ → Option Proposal) where
  pub put_slot :
      (voted : ℕ → List Address) (votes : ℕ → List Ballot)
      → ((n : ℕ) → SlotKept (proposals n) (voted n) (votes n))
      → (vs : List Address) (bs : List Ballot) → SlotKept (some q) vs bs
      → (n : ℕ)
      → SlotKept (put_at id (some q) proposals n) (put_at id vs voted n) (put_at id bs votes n)
  put_slot voted votes h vs bs k n = elim (Bool-cases (n == id)) [
    | inl e ↦ rw e k
    | inr e ↦ rw e (h n)
  ]

  pub put_proposal :
      (voted : ℕ → List Address) (votes : ℕ → List Ballot)
      → ((n : ℕ) → SlotKept (proposals n) (voted n) (votes n))
      → SlotKept (some q) (voted id) (votes id)
      → (n : ℕ) → SlotKept (put_at id (some q) proposals n) (voted n) (votes n)
  put_proposal voted votes h k n = elim (Bool-cases (n == id)) [
    | inl e ↦ rw e (subst (λ m. SlotKept (some q) (voted m) (votes m)) (sym ((==_iff n id).0 e)) k)
    | inr e ↦ rw e (h n)
  ]

  pub put_ballots :
      (voted : ℕ → List Address) (votes : ℕ → List Ballot)
      → ((n : ℕ) → SlotKept (proposals n) (voted n) (votes n))
      → (bs : List Ballot) → SlotKept (some q) (voted id) bs
      → (n : ℕ) → SlotKept (put_at id (some q) proposals n) (voted n) (put_at id bs votes n)
  put_ballots voted votes h bs k n = elim (Bool-cases (n == id)) [
    | inl e ↦ rw e (subst (λ m. SlotKept (some q) (voted m) bs) (sym ((==_iff n id).0 e)) k)
    | inr e ↦ rw e (h n)
  ]

  pub put_Fresh :
      (count : ℕ) → Fresh count proposals → id < count → Fresh count (put_at id (some q) proposals)
  put_Fresh count h l n m = elim (Bool-cases (n == id)) [
    | inl e ↦ absurd (let eq : n ≡ id = (==_iff n id).0 e in omega arith)
    | inr e ↦ rw e (h n m)
  ]

-- A proposal that is there is below the count.
pub Fresh-lt :
    (count id : ℕ) (proposals : ℕ → Option Proposal) (p : Proposal)
    → Fresh count proposals
    → proposals id ≡ some p
    → id < count
Fresh-lt count id proposals p h e = elim (Bool-cases (ltb id count)) [
  | inl l ↦ ltb→lt id count l
  | inr l ↦ absurd (let x = h id (grind (arith, lt→ltb id count)) in cc)
]

-- A new proposal has no tally.
pub SlotKept-new :
    (q : Proposal) (vs : List Address) (bs : List Ballot)
    → SlotKept none vs bs
    → ((v : VoteType) → counter v q ≡ 0)
    → SlotKept (some q) vs bs
unfolding weights
SlotKept-new q vs bs (no_voters, no_ballots) h = (
  subst (Tallies q) (sym no_ballots) h,
  no_voters ∙ ap voters (sym no_ballots),
  subst (HasDistinct (λ a. a)) (sym no_voters) tt,
)

pub counters_same :
    (p q : Proposal)
    → q.votes_yes ≡ p.votes_yes
    → q.votes_no ≡ p.votes_no
    → q.votes_abstain ≡ p.votes_abstain
    → (v : VoteType) → counter v q ≡ counter v p
counters_same p q y n a yes = y
counters_same p q y n a no = n
counters_same p q y n a abstain = a

-- The number of active proposals does not matter here.
pub Kept-end_active : (s : State) → Kept s → Kept (end_active s)
unfolding end_active
Kept-end_active s k = k
