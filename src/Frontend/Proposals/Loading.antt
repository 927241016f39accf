-- ===== src/Frontend/Proposals/Loading.antt =====
-- Loading the proposals, by frontend/src/api.ts and frontend/src/store/proposalStore.ts.
use cosmosvote.Prelude.{
  ℕ, zero, suc, ◌+◌, ◌≤◌, ◌<◌, ◌≡◌, refl, sym, ap, subst, ◌↔◌, ◌⊎◌, inl, inr, none, some, Bool,
  true, false, List, [], ◌∷◌, arith, JsString, length, In, Result, ok, throws,
}
use cosmosvote.Frontend.Proposals.{
  Proposal, Chain, fulfilled, fetch_from, fetch_all_proposals, Store, begin_loading, both,
  end_loading, load_proposals,
}

fulfilled-In :
    (p : Proposal) (rs : List (Result JsString Proposal)) → In p (fulfilled rs) ↔ In (ok p) rs
unfolding fulfilled
fulfilled-In p [] = (λ m. m, λ m. m)
fulfilled-In p (ok q ∷ rs) = ground (arith, fulfilled-In p rs)
fulfilled-In p (throws e ∷ rs) = ground (arith, fulfilled-In p rs)

length-fulfilled : (rs : List (Result JsString Proposal)) → length (fulfilled rs) ≤ length rs
unfolding fulfilled
length-fulfilled [] = omega arith
length-fulfilled (ok q ∷ rs) = omega (arith, length-fulfilled rs)
length-fulfilled (throws e ∷ rs) = omega (arith, length-fulfilled rs)

-- Numbers that rise from a given one on.
abbrev pub RisesFrom : ℕ → List Proposal → Type 0
RisesFrom i [] = Unit {0}
RisesFrom i (p ∷ ps) = (i ≤ p.id) × RisesFrom (suc p.id) ps

RisesFrom-mono : (i j : ℕ) (ps : List Proposal) → i ≤ j → RisesFrom j ps → RisesFrom i ps
RisesFrom-mono i j [] h r = tt
RisesFrom-mono i j (p ∷ ps) h r = (omega arith, r.1)

module _ (fetch : ℕ → Result JsString Proposal) where
  length-fetch_from : (count i : ℕ) → length (fetch_from fetch count i) ≡ count
  unfolding fetch_from
  length-fetch_from zero i = refl
  length-fetch_from (suc count) i = ap suc (length-fetch_from count (suc i))

  fetch_from-In :
      (r : Result JsString Proposal) (count i : ℕ)
      → In r (fetch_from fetch count i)
      → (k : ℕ) × (i ≤ k) × (k < i + count) × (fetch k ≡ r)
  unfolding fetch_from
  fetch_from-In r zero i m = absurd m
  fetch_from-In r (suc count) i (inl e) = (i, omega arith, omega arith, sym e)
  fetch_from-In r (suc count) i (inr m) =
      let (k, low, high, e) = fetch_from-In r count (suc i) m in (k, omega arith, omega arith, e)

  In-fetch_from : (k count i : ℕ) → i ≤ k → k < i + count → In (fetch k) (fetch_from fetch count i)
  unfolding fetch_from
  In-fetch_from k zero i low high = absurd (omega arith)
  In-fetch_from k (suc count) i low high = elim (same_or_later k i low) [
    | inl e ↦ inl (ap fetch e)
    | inr later ↦ inr (In-fetch_from k count (suc i) later (omega arith))
  ]
    where
      same_or_later : (k i : ℕ) → i ≤ k → (k ≡ i) ⊎ (suc i ≤ k)
      same_or_later k i low = ground arith

  fetched-RisesFrom :
      ((k : ℕ) (p : Proposal) → fetch k ≡ ok p → p.id ≡ k)
      → (count i : ℕ) → RisesFrom i (fulfilled (fetch_from fetch count i))
  unfolding fetch_from fulfilled
  fetched-RisesFrom h zero i = tt
  fetched-RisesFrom h (suc count) i = one (fetch i) refl (fetched-RisesFrom h count (suc i))
    where
      one :
          (r : Result JsString Proposal)
          → fetch i ≡ r
          → RisesFrom (suc i) (fulfilled (fetch_from fetch count (suc i)))
          → RisesFrom i (fulfilled (r ∷ fetch_from fetch count (suc i)))
      one (ok p) e later = let same = h i p e in (omega arith, rw same later)
      one (throws err) e later =
          RisesFrom-mono i (suc i) (fulfilled (fetch_from fetch count (suc i))) (omega arith) later

-- If the contract keeps each proposal under its own number, then the proposals that are loaded are
-- those that can be read, of all numbers below the count, in the order of their numbers and each
-- once; one that cannot be read does not stop the others.
pub fetch_all_proposals_iff :
    (chain : Chain) (count : ℕ)
    → chain.proposal_count ≡ ok count
    → ((k : ℕ) (p : Proposal) → chain.get_proposal k ≡ ok p → p.id ≡ k)
    → (ps : List Proposal) × (fetch_all_proposals chain ≡ ok ps)
      × ((p : Proposal) → In p ps ↔ ((k : ℕ) × (k < count) × (chain.get_proposal k ≡ ok p)))
      × RisesFrom 0 ps
      × (length ps ≤ count)
unfolding fetch_all_proposals
fetch_all_proposals_iff chain count h own =
    let fetch = chain.get_proposal in
    let results = fetch_from fetch count 0 in
    let bound = length-fulfilled results in
    let size = length-fetch_from fetch count 0 in
    (
      fulfilled results,
      rw h refl,
      λ p. (
        λ m.
            let (k, _, high, e) =
              fetch_from-In fetch (ok p) count 0 ((fulfilled-In p results).0 m) in
            (k, omega arith, e),
        λ (k, high, e). (fulfilled-In p results).1 (
            subst (λ r. In r results) e
              (In-fetch_from fetch k count 0 (omega arith) (omega arith))),
      ),
      fetched-RisesFrom fetch own count 0,
      omega arith,
    )

abbrev pub Loaded : Result JsString (List Proposal) → Result JsString ℕ → Store → Store → Type 0
Loaded found decimals s t =
    ((ps : List Proposal) × (d : ℕ) × (found ≡ ok ps)
      × (decimals ≡ ok d)
      × (t.proposals ≡ ps)
      × (t.decimals ≡ d)
      × (t.error ≡ none))
    ⊎ ((e : JsString) × ((found ≡ throws e) ⊎ (decimals ≡ throws e))
        × (t.error ≡ some e)
        × (t.proposals ≡ s.proposals)
        × (t.decimals ≡ s.decimals))

end_loading-Loaded :
    (first : Bool) (found : Result JsString (List Proposal)) (decimals : Result JsString ℕ)
    (s : Store)
    → let t = end_loading (both first found decimals) (begin_loading s) in
      (t.loading ≡ false)
      × (t.progress ≡ none)
      × (t.voted_map ≡ s.voted_map)
      × Loaded found decimals s t
unfolding end_loading both begin_loading
end_loading-Loaded first (ok ps) (ok d) s =
    (refl, refl, refl, inl (ps, d, refl, refl, refl, refl, refl))
end_loading-Loaded first (ok ps) (throws e) s =
    (refl, refl, refl, inr (e, inr refl, refl, refl, refl))
end_loading-Loaded first (throws e) (ok d) s =
    (refl, refl, refl, inr (e, inl refl, refl, refl, refl))
end_loading-Loaded true (throws e) (throws f) s =
    (refl, refl, refl, inr (f, inr refl, refl, refl, refl))
end_loading-Loaded false (throws e) (throws f) s =
    (refl, refl, refl, inr (e, inl refl, refl, refl, refl))

-- Loading ends with the spinner off and the votes as they were. Either the proposals and the decimals
-- were both answered and are shown with no error, or one of the two requests failed, its error is
-- shown and the proposals and decimals stay.
pub load_proposals_outcome :
    (chain : Chain) (first : Bool) (s : Store)
    → let t = load_proposals chain first s in
      (t.loading ≡ false)
      × (t.progress ≡ none)
      × (t.voted_map ≡ s.voted_map)
      × Loaded (fetch_all_proposals chain) chain.decimals s t
unfolding load_proposals
load_proposals_outcome chain first s =
    end_loading-Loaded first (fetch_all_proposals chain) chain.decimals s
