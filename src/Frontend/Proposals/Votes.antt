-- ===== src/Frontend/Proposals/Votes.antt =====
-- The votes that frontend/src/store/proposalStore.ts loads.
use cosmosvote.Prelude.{
  ℕ, ◌≡◌, refl, sym, ap, ◌∙◌, subst, ◌↔◌, ◌⊎◌, inl, inr, Option, none, some, Bool, true, false, not,
  List, [], ◌∷◌, arith, JsString, ◌===◌, ===_iff, ===_refl, lookup, to_decimal,
  to_decimal_injective, if◌then◌else◌, Bool-cases, cons_some, In, All, choose, Result, ok, throws,
}
use cosmosvote.Frontend.Proposals.{
  Proposal, VoteRecord, Chain, vote_or_none, fetch_vote_record, voted_or_false, set_key, set_all,
  entry_of, vote_entry, Store, load_votes_for_user,
}

abbrev pub VoteMap : Type 0
VoteMap = List (JsString × VoteRecord)

lookup-set_key :
    (key k : JsString) (v : VoteRecord) (m : VoteMap)
    → lookup key (set_key k v m) ≡ (if k === key then some v else lookup key m)
unfolding lookup set_key
lookup-set_key key k v [] = refl
lookup-set_key key k v ((k', v') ∷ m) =
    ground (arith, lookup-set_key key k v m, ===_iff k' k, ===_iff k' key, ===_iff k key)

-- The vote of a wallet on the proposal with a number, as the contract answers.
abbrev pub HasVote : Chain → JsString → ℕ → VoteRecord → Type 0
HasVote chain wallet id vote =
    (chain.has_voted id wallet ≡ ok true) × (chain.get_vote id wallet ≡ ok (some vote))

-- Where the key is the number of a proposal of the list, the map can hold its vote only.
abbrev pub IsVoteAt : Chain → JsString → List Proposal → JsString → VoteRecord → Type 0
IsVoteAt chain wallet ps key vote =
    (p : Proposal) × In p ps × (key ≡ to_decimal p.id) × HasVote chain wallet p.id vote

set_key_cases :
    (key k : JsString) (v vote : VoteRecord) (m : VoteMap)
    → lookup key (set_key k v m) ≡ some vote
    → ((k ≡ key) × (v ≡ vote)) ⊎ (lookup key m ≡ some vote)
set_key_cases key k v vote m e = split_on (k === key) refl (sym (lookup-set_key key k v m) ∙ e)
  where
    split_on :
        (b : Bool)
        → (k === key) ≡ b
        → (if b then some v else lookup key m) ≡ some vote
        → ((k ≡ key) × (v ≡ vote)) ⊎ (lookup key m ≡ some vote)
    split_on true same h = inl ((===_iff k key).0 same, cc)
    split_on false other h = inr h

set_key_here : (k : JsString) (v : VoteRecord) (m : VoteMap) → lookup k (set_key k v m) ≡ some v
set_key_here k v m = rw (lookup-set_key k k v m, ===_refl k) refl

set_key_keeps :
    (key k : JsString) (v vote : VoteRecord) (m : VoteMap)
    → lookup key m ≡ some vote
    → (w : VoteRecord) × (lookup key (set_key k v m) ≡ some w)
set_key_keeps key k v vote m e = elim (Bool-cases (k === key)) [
  | inl same ↦ (v, rw (lookup-set_key key k v m, same) refl)
  | inr other ↦ (vote, rw (lookup-set_key key k v m, other) e)
]

module _ (P : JsString → VoteRecord → Type 0) where
  -- Every entry that a map of such entries gives is such an entry.
  set_all-sound :
      (entries m : VoteMap) (key : JsString) (vote : VoteRecord)
      → All (λ e. P e.0 e.1) entries
      → ((k : JsString) (v : VoteRecord) → lookup k m ≡ some v → P k v)
      → lookup key (set_all entries m) ≡ some vote
      → P key vote
  unfolding set_all
  set_all-sound [] m key vote h base e = base key vote e
  set_all-sound ((k, v) ∷ entries) m key vote h base e =
      set_all-sound entries (set_key k v m) key vote h.1
        (λ k' v' e'. grown k' v' (set_key_cases k' k v v' m e')) e
    where
      grown :
          (k' : JsString) (v' : VoteRecord)
          → ((k ≡ k') × (v ≡ v')) ⊎ (lookup k' m ≡ some v')
          → P k' v'
      grown k' v' (inl (same, equal)) = subst (λ x. P x v') same (subst (P k) equal h.0)
      grown k' v' (inr e') = base k' v' e'

set_all-keeps :
    (entries m : VoteMap) (key : JsString) (vote : VoteRecord)
    → lookup key m ≡ some vote
    → (v : VoteRecord) × (lookup key (set_all entries m) ≡ some v)
unfolding set_all
set_all-keeps [] m key vote e = (vote, e)
set_all-keeps ((k, v) ∷ entries) m key vote e =
    let (w, e') = set_key_keeps key k v vote m e in set_all-keeps entries (set_key k v m) key w e'

set_all-In :
    (entries m : VoteMap) (key : JsString) (vote : VoteRecord)
    → In (key, vote) entries
    → (v : VoteRecord) × (lookup key (set_all entries m) ≡ some v)
unfolding set_all
set_all-In [] m key vote h = absurd h
set_all-In ((k, v) ∷ entries) m key vote (inl e) =
    set_all-keeps entries (set_key k v m) key v (rw (ap (λ q. q.0) e) (set_key_here k v m))
set_all-In ((k, v) ∷ entries) m key vote (inr h) = set_all-In entries (set_key k v m) key vote h

entry_iff :
    (voted : Result JsString Bool) (answer : Result JsString (Option VoteRecord)) (id : ℕ)
    (key : JsString) (vote : VoteRecord)
    → ((if not (voted_or_false voted) then none else entry_of id (vote_or_none answer))
        ≡ some (key, vote))
      ↔ ((key ≡ to_decimal id) × ((voted ≡ ok true) × (answer ≡ ok (some vote))))
unfolding voted_or_false entry_of vote_or_none
entry_iff (throws e) answer id key vote = ground arith
entry_iff (ok false) answer id key vote = ground arith
entry_iff (ok true) (throws e) id key vote = ground arith
entry_iff (ok true) (ok none) id key vote = ground arith
entry_iff (ok true) (ok (some v)) id key vote = ground arith

module _ (chain : Chain) (wallet : JsString) where
  vote_entry_iff :
      (p : Proposal) (key : JsString) (vote : VoteRecord)
      → (vote_entry chain wallet p ≡ some (key, vote))
        ↔ ((key ≡ to_decimal p.id) × HasVote chain wallet p.id vote)
  unfolding vote_entry fetch_vote_record
  vote_entry_iff p key vote =
      entry_iff (chain.has_voted p.id wallet) (chain.get_vote p.id wallet) p.id key vote

  entries_sound :
      (all ps : List Proposal)
      → ((p : Proposal) → In p ps → In p all)
      → All (λ e. IsVoteAt chain wallet all e.0 e.1) (choose (vote_entry chain wallet) ps)
  entries_sound all [] sub = tt
  entries_sound all (p ∷ ps) sub =
      with_entry (vote_entry chain wallet p) refl (entries_sound all ps (λ q m. sub q (inr m)))
    where
      with_entry :
          (o : Option (JsString × VoteRecord))
          → vote_entry chain wallet p ≡ o
          → All (λ e. IsVoteAt chain wallet all e.0 e.1) (choose (vote_entry chain wallet) ps)
          → All
              (λ e. IsVoteAt chain wallet all e.0 e.1)
              (cons_some o (choose (vote_entry chain wallet) ps))
      with_entry none e h = h
      with_entry (some (key, vote)) e h =
          let (named, has) = (vote_entry_iff p key vote).0 e in
          ((p, sub p (inl refl), named, has), h)

  In-entries :
      (p : Proposal) (key : JsString) (vote : VoteRecord) (ps : List Proposal)
      → In p ps
      → vote_entry chain wallet p ≡ some (key, vote)
      → In (key, vote) (choose (vote_entry chain wallet) ps)
  In-entries p key vote [] m e = absurd m
  In-entries p key vote (q ∷ ps) (inl same) e = rw (sym same, e) (inl refl)
  In-entries p key vote (q ∷ ps) (inr m) e =
      behind (vote_entry chain wallet q) (In-entries p key vote ps m e)
    where
      behind :
          (o : Option (JsString × VoteRecord))
          → In (key, vote) (choose (vote_entry chain wallet) ps)
          → In (key, vote) (cons_some o (choose (vote_entry chain wallet) ps))
      behind none h = h
      behind (some x) h = inr h

  one_vote :
      (p q : Proposal) (v w : VoteRecord)
      → to_decimal p.id ≡ to_decimal q.id
      → HasVote chain wallet p.id v
      → HasVote chain wallet q.id w
      → w ≡ v
  one_vote p q v w e hp hq =
      let same = to_decimal_injective p.id q.id e in let found = sym (rw same at hp.1) ∙ hq.1 in cc

no_entry : (key : JsString) (vote : VoteRecord) → lookup {A = VoteRecord} key [] ≡ some vote → ⊥
unfolding lookup
no_entry key vote e = cc

-- After the votes of a wallet are loaded, the map gives a vote for a number exactly if a proposal of
-- the list has that number, the contract says that the wallet has voted on it and gives that
-- vote; a request that fails counts as no vote and stops no other.
pub load_votes_for_user_iff :
    (chain : Chain) (wallet : JsString) (s : Store) (key : JsString) (vote : VoteRecord)
    → (lookup key (load_votes_for_user chain wallet s).voted_map ≡ some vote) ↔ (
        (p : Proposal) × In p s.proposals
        × (key ≡ to_decimal p.id)
        × HasVote chain wallet p.id vote)
unfolding load_votes_for_user
load_votes_for_user_iff chain wallet s key vote = (
  sound vote,
  λ (p, m, named, has).
      let entry = (vote_entry_iff chain wallet p key vote).1 (named, has) in
      let (w, e) =
        set_all-In (choose (vote_entry chain wallet) s.proposals) [] key vote
          (In-entries chain wallet p key vote s.proposals m entry) in
      let (q, _, named', has') = sound w e in
      rw⁻¹ (one_vote chain wallet p q vote w (sym named ∙ named') has has') e,
)
  where
    sound :
        (v : VoteRecord)
        → lookup key (set_all (choose (vote_entry chain wallet) s.proposals) []) ≡ some v
        → IsVoteAt chain wallet s.proposals key v
    sound v e =
        set_all-sound (IsVoteAt chain wallet s.proposals)
          (choose (vote_entry chain wallet) s.proposals) [] key v
          (entries_sound chain wallet s.proposals s.proposals (λ p m. m))
          (λ k w given. absurd (no_entry k w given)) e
