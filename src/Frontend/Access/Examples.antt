-- ===== src/Frontend/Access/Examples.antt =====
-- The theorem on frontend/src/config.ts at a concrete configuration.
use cosmosvote.Prelude.{◌≡◌, refl, [], ◌∷◌, ◌++◌, js, starts_with, throws}
use cosmosvote.Frontend.Access.{
  NetworkConfig, is_bad_id, id_error, governance_message, token_message, join_lines, thrown_errors,
  validate_config,
}

-- A governance contract of the right shape, and none for the token.
abbrev half_config : NetworkConfig
half_config = record {
  rpc_url = js "https://soroban-testnet.stellar.org";
  network_passphrase = js "Test SDF Network ; September 2015";
  governance_contract_id = js "CAAAAAAAAAAAAAAAAAAAAAAAAAAAAAAAAAAAAAAAAAAAAAAAAAAAAAAA";
  token_contract_id = [];
  treasury_contract_id = [];
}

half_test : validate_config half_config ≡ throws (js "Configuration Error:" ++ 10 ∷ token_message)
unfolding validate_config thrown_errors id_error is_bad_id join_lines js starts_with
    governance_message token_message
half_test = refl
