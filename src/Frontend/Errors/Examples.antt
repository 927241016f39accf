-- ===== src/Frontend/Errors/Examples.antt =====
-- The theorem on frontend/src/errors.ts at an error about voting.
use cosmosvote.Prelude.{◌≡◌, lookup}
use cosmosvote.Frontend.Errors.{error_messages, already_voted, error_code, error_name}
use cosmosvote.Frontend.Errors.Codes.{code_of, code_in_messages, error_messages_code}

error_messages_code_example :
    code_of (lookup (error_name already_voted) error_messages)
    ≡ code_in_messages (error_code already_voted)
error_messages_code_example = error_messages_code already_voted
