-- ===== src/Frontend/Forms/Contract/Checks.antt =====
-- Which inputs pass the contract's checks.
use cosmosvote.Prelude.{ℕ, zero, suc, ◌≤◌, ◌≡◌, ◌↔◌, none, pos, ok, arith}
use cosmosvote.Frontend.Forms.Contract.{check_inputs}

pub check_inputs_iff :
    (t s q n : ℕ)
    → (check_inputs t s none (pos q) n ≡ ok tt)
      ↔ ((1 ≤ t) × (t ≤ 128) × (1 ≤ s) × (s ≤ 1024) × (1 ≤ q) × (60 ≤ n) × (n ≤ 2592000))
unfolding check_inputs
check_inputs_iff t s zero n = ground arith
check_inputs_iff t s (suc q) n = ground arith
