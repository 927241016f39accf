-- ===== src/Frontend/Quorum.antt =====
-- The quorum bar of frontend/src/components/ProposalCard.tsx.
mod Examples
use cosmosvote.Prelude.{ℕ, ◌+◌, ◌*◌, ◌/◌, ◌≤◌, min, ◌≡◌, ◌↔◌, arith, ◌==◌, if◌then◌else◌}
use native.Mathlib.Nat.{le-div_iff_mul-le}
use cosmosvote.Frontend.Proposals.{Proposal}

pub total_votes : Proposal → ℕ
total_votes p = p.votes_yes + p.votes_no + p.votes_abstain

pub quorum_pct : Proposal → ℕ
unfolding total_votes
quorum_pct p = if p.quorum == 0 then 0 else min 100 (total_votes p * 100 / p.quorum)

percent : (total quorum : ℕ) → 1 ≤ quorum → (100 ≤ total * 100 / quorum) ↔ (quorum ≤ total)
percent total quorum h =
    let scaled = le-div_iff_mul-le {k = quorum} {x = 100} {y = total * 100} h in
    (λ e. hundredth (scaled.0 e), λ e. scaled.1 (omega arith))
  where
    hundredth : 100 * quorum ≤ total * 100 → quorum ≤ total
    hundredth e = omega arith

bar : (quorum pct : ℕ) → 1 ≤ quorum → (if quorum == 0 then 0 else min 100 pct) ≡ min 100 pct
bar quorum pct h = ground arith

-- For a proposal with a quorum, the bar is at most full, and full exactly if as many votes were cast, of
-- the three kinds together, as the quorum asks for.
pub quorum_pct_lem :
    (p : Proposal)
    → 1 ≤ p.quorum
    → (quorum_pct p ≤ 100) × ((quorum_pct p ≡ 100) ↔ (p.quorum ≤ total_votes p))
unfolding quorum_pct
quorum_pct_lem p h =
    let pct = total_votes p * 100 / p.quorum in
    let full = percent (total_votes p) p.quorum h in
    rw (bar p.quorum pct h) (omega arith, (λ e. full.0 (omega arith), λ e. capped pct (full.1 e)))
  where
    capped : (n : ℕ) → 100 ≤ n → min 100 n ≡ 100
    capped n e = omega arith
