-- ===== src/Frontend/Forms/Contract.antt =====
-- The checks that contracts/governance/src/lib.rs makes on the inputs of `create_proposal`, which the
-- forms mirror. The length of a Soroban string is in bytes.
pub mod Checks
use cosmosvote.Prelude.{
  ℕ, zero, suc, ◌||◌, Bool, true, false, Option, none, some, ltb, ◌==◌, ℤ, pos, negsuc, Result, ok,
  throws, ◌>>=◌, ◌>>◌,
}
use cosmosvote.Frontend.Errors.{
  ContractError, invalid_title, invalid_description, invalid_quorum, invalid_duration_range,
  invalid_link,
}

abbrev pub bad_length : ℕ → ℕ → Bool
bad_length limit n = n == 0 || ltb limit n

abbrev pub at_most_zero : ℤ → Bool
at_most_zero (pos zero) = true
at_most_zero (pos (suc n)) = false
at_most_zero (negsuc n) = true

abbrev pub refuse : Bool → ContractError → Result ContractError (Unit {0})
refuse true e = throws e
refuse false e = ok tt

unfoldable pub link_check : Option ℕ → Result ContractError (Unit {0})
link_check none = ok tt
link_check (some n) = refuse (bad_length 256 n) invalid_link

-- The checks on the lengths of the title, the description and the link, the quorum and the duration.
unfoldable pub check_inputs : ℕ → ℕ → Option ℕ → ℤ → ℕ → Result ContractError (Unit {0})
unfolding link_check
check_inputs title description link quorum duration = do
  refuse (bad_length 128 title) invalid_title
  refuse (bad_length 1024 description) invalid_description
  link_check link
  refuse (at_most_zero quorum) invalid_quorum
  refuse (ltb duration 60 || ltb 2592000 duration) invalid_duration_range
