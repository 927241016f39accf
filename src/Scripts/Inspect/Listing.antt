-- ===== src/Scripts/Inspect/Listing.antt =====
-- Which proposals scripts/inspect-state.js lists.
use cosmosvote.Prelude.{
  contains, leb→le, pos, ℕ, zero, suc, ◌+◌, ◌-◌, ◌≤◌, ◌<◌, min, max, ◌≡◌, refl, ap, ◌∙◌, inl, inr,
  some, true, false, ◌||◌, List, [], ◌∷◌, map, arith, JsString, js, or_else, leb, Bool-cases, ok,
  ◌>>=◌,
}
use cosmosvote.Scripts.Inspect.Commands.{
  Proposal, printed, failed, Cli, invoke_view, fetch_proposal, fetch_range, first_id,
  fetch_proposals,
}

-- The numbers from one on.
pub numbers : ℕ → ℕ → List ℕ
numbers id zero = []
numbers id (suc n) = id ∷ numbers (id + 1) n

-- The CLI answers for a contract that stores proposals below a count, and that has none of that number.
abbrev pub Stores : Cli → ℕ → (ℕ → Proposal) → Type 0
Stores cli count stored =
    (cli.proposal_count ≡ printed count)
    × ((id : ℕ) → id < count → cli.get_proposal (some (pos id)) ≡ printed (stored id))
    × ((stderr : JsString) × (cli.get_proposal (some (pos count)) ≡ failed stderr)
        × ((contains stderr (js "not found") || contains stderr (js "missing")) ≡ true))

module _ (cli : Cli) (count : ℕ) (stored : ℕ → Proposal) where
  range-stored :
      (n id : ℕ)
      → Stores cli count stored
      → id + n ≡ count
      → fetch_range cli (suc n) id ≡ ok (map stored (numbers id n))
  unfolding fetch_range fetch_proposal invoke_view numbers
  range-stored zero id (_, _, (stderr, p, q)) e = rw (at_count id e ∙ p, q) refl
    where
      at_count :
          (id : ℕ)
          → id + 0 ≡ count
          → cli.get_proposal (some (pos id)) ≡ cli.get_proposal (some (pos count))
      at_count id e = ap (λ n. cli.get_proposal (some (pos n))) (omega arith)
  range-stored (suc n) id (c, below, none_left) e =
      rw (below id (omega arith), range-stored n (id + 1) (c, below, none_left) (omega arith)) refl

  nothing_left : (first : ℕ) → fetch_range cli 0 first ≡ ok (map stored (numbers first 0))
  unfolding fetch_range numbers
  nothing_left first = refl

  range-first :
      (first : ℕ)
      → Stores cli count stored
      → first ≤ count + 1
      → fetch_range cli (count + 1 - first) first ≡ ok (map stored (numbers first (count - first)))
  range-first first h le = elim (Bool-cases (leb first count)) [
    | inl e ↦
        ap (λ n. fetch_range cli n first) (omega (arith, leb→le first count e))
        ∙ range-stored (count - first) first h (omega (arith, leb→le first count e))
    | inr e ↦ past first (above first e)
  ]
    where
      above : (first : ℕ) → leb first count ≡ false → count < first
      above first e = ground arith

      past :
          (first : ℕ)
          → count < first
          → fetch_range cli (count + 1 - first) first
            ≡ ok (map stored (numbers first (count - first)))
      past first lt =
          ap (λ n. fetch_range cli n first) (omega arith)
          ∙ nothing_left first
          ∙ ap (λ n. ok (map stored (numbers first n))) (omega arith)

  -- For a contract that stores the proposals below a count, the list holds those from the larger
  -- of 1 and count - limit + 1 on, in order: not the one of number 0, and with a limit of at least
  -- 1 one fewer than the limit, or all but the first.
  pub fetch_proposals_lem :
      (limit : ℕ)
      → Stores cli count stored
      → let first = max 1 (count + 1 - limit) in
        (fetch_proposals cli (some (pos limit)) ≡ ok (map stored (numbers first (count - first))))
        × (count - first ≡ min (limit - 1) (count - 1))
  unfolding fetch_proposals invoke_view first_id
  fetch_proposals_lem limit (c, below, none_left) = (
    ap
          (λ r. invoke_view (js "proposal_count") r >>= λ answer.
            fetch_range cli (or_else answer 0 + 1 - first_id (or_else answer 0) (pos limit))
              (first_id (or_else answer 0) (pos limit)))
          c
        ∙ range-first (max 1 (count + 1 - limit)) (c, below, none_left) (omega arith),
    omega arith,
  )
