-- ===== src/Frontend/Search/Matches.antt =====
-- Which proposals frontend/src/App.tsx shows, and that the address keeps the search.
use cosmosvote.Prelude.{
  contains, contains_iff, ◌≡◌, refl, ◌↔◌, ◌⊎◌, inl, inr, Bool, true, false, not, ◌&&◌, ◌||◌, List,
  [], ◌∷◌, ◌++◌, arith, JsString, js, ◌===◌, ===_iff, ===→≡, truthy, lookup, Bool-cases, In,
  In-select, select-In,
}
use cosmosvote.Frontend.Proposals.{Proposal}
use cosmosvote.Frontend.Search.{
  state_name, Params, get_url_params, set_url_params, is_match, filtered,
}

-- One text holds another.
abbrev pub Holds : JsString → JsString → Type 0
Holds s word = (front : JsString) × (back : JsString) × (s ≡ front ++ word ++ back)

module _ (lower : JsString → JsString) where
  abbrev pub IsMatch : Params → Proposal → Type 0
  IsMatch p proposal =
      ((p.state_filter ≡ js "All") ⊎ (state_name proposal.state ≡ p.state_filter))
      × ((lower p.search ≡ [])
          ⊎ (Holds (lower proposal.title) (lower p.search)
              ⊎ Holds (lower proposal.description) (lower p.search)))

  state_iff :
      (p : Params) (proposal : Proposal)
      → ((p.state_filter === js "All" || state_name proposal.state === p.state_filter) ≡ true)
        ↔ ((p.state_filter ≡ js "All") ⊎ (state_name proposal.state ≡ p.state_filter))
  state_iff p proposal =
      ground (
        arith,
        ===_iff p.state_filter (js "All"),
        ===_iff (state_name proposal.state) p.state_filter,
      )

  empty_iff : (q : JsString) → (not (truthy q) ≡ true) ↔ (q ≡ [])
  empty_iff [] = (λ e. refl, λ e. refl)
  empty_iff (c ∷ q) = (λ e. cc, λ e. cc)

  search_iff :
      (q t s : JsString)
      → ((not (truthy q) || contains t q || contains s q) ≡ true)
        ↔ ((q ≡ []) ⊎ (Holds t q ⊎ Holds s q))
  search_iff q t s = (forth, back)
    where
      forth :
          (not (truthy q) || contains t q || contains s q) ≡ true
          → (q ≡ []) ⊎ (Holds t q ⊎ Holds s q)
      forth h = elim (Bool-cases (not (truthy q))) [
        | inl e ↦ inl ((empty_iff q).0 e)
        | inr e ↦ elim (Bool-cases (contains t q)) [
          | inl f ↦ inr (inl ((contains_iff t q).0 f))
          | inr f ↦ inr (inr ((contains_iff s q).0 (rw (e, f) at h)))
        ]
      ]

      back :
          (q ≡ []) ⊎ (Holds t q ⊎ Holds s q)
          → (not (truthy q) || contains t q || contains s q) ≡ true
      back (inl e) = rw e refl
      back (inr (inl h)) = ground (arith, (contains_iff t q).1 h)
      back (inr (inr h)) = ground (arith, (contains_iff s q).1 h)

  both_iff : (a b : Bool) → ((a && b) ≡ true) ↔ ((a ≡ true) × (b ≡ true))
  both_iff a b = ground arith

  is_match_iff :
      (p : Params) (proposal : Proposal) → (is_match lower p proposal ≡ true) ↔ IsMatch p proposal
  unfolding is_match
  is_match_iff p proposal =
      let (split_up, put_together) =
        both_iff (p.state_filter === js "All" || state_name proposal.state === p.state_filter) (
          not (truthy (lower p.search))
          || contains (lower proposal.title) (lower p.search)
          || contains (lower proposal.description) (lower p.search)) in
      let (state_to, to_state) = state_iff p proposal in
      let (search_to, to_search) =
        search_iff (lower p.search) (lower proposal.title) (lower proposal.description) in
      (
        λ h. let (a, b) = split_up h in (state_to a, search_to b),
        λ (a, b). put_together (to_state a, to_search b),
      )

  -- A proposal is shown exactly if it is loaded, the filter is All or its state, and the search is empty or
  -- its lower-case text stands in that of the title or of the description.
  pub filtered_iff :
      (p : Params) (proposals : List Proposal) (proposal : Proposal)
      → In proposal (filtered lower p proposals) ↔ (In proposal proposals × IsMatch p proposal)
  unfolding filtered
  filtered_iff p proposals proposal = (
    λ m.
        let (h, e) = In-select (is_match lower p) proposal proposals m in
        (h, (is_match_iff p proposal).0 e),
    λ (h, e). select-In (is_match lower p) proposal proposals h ((is_match_iff p proposal).1 e),
  )

-- What the address is given, it gives back.
pub get_url_params-set_url_params : (p : Params) → get_url_params (set_url_params p) ≡ p
unfolding get_url_params set_url_params lookup js ◌===◌
get_url_params-set_url_params p =
    from p.search p.state_filter (Bool-cases (p.state_filter === js "All"))
  where
    from :
        (q f : JsString)
        → ((f === js "All") ≡ true) ⊎ ((f === js "All") ≡ false)
        → get_url_params (set_url_params (record { search = q; state_filter = f }))
          ≡ record { search = q; state_filter = f }
    from [] f (inl e) = rw (===→≡ f (js "All") e) refl
    from [] f (inr e) = rw e refl
    from (c ∷ q) f (inl e) = rw (===→≡ f (js "All") e) refl
    from (c ∷ q) f (inr e) = rw e refl
