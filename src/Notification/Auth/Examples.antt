-- ===== src/Notification/Auth/Examples.antt =====
-- The theorems on notification-service/src/auth.ts at concrete keys and headers.
use cosmosvote.Prelude.{◌≡◌, refl, ◌↔◌, Option, some, JsString, js, ◌===◌, starts_with, leb, ok}
use cosmosvote.Notification.Auth.{
  admin, viewer, Keys, bearer, token_of, role_of_token, resolve_role, has_role, require_role,
}
use cosmosvote.Notification.Auth.Access.{Presents, rank, has_role-rank, require_role-admin_iff}

abbrev both_keys : Keys
both_keys = record { admin_key = js "root-key"; viewer_key = js "read-key" }

abbrev with_bearer : Option JsString
with_bearer = some (js "Bearer read-key")

viewer_reads : require_role both_keys with_bearer viewer ≡ ok tt
unfolding require_role resolve_role has_role role_of_token token_of bearer js ◌===◌ starts_with
viewer_reads = refl

admin_by_plain_key : require_role both_keys (some (js "root-key")) admin ≡ ok tt
unfolding require_role resolve_role has_role role_of_token token_of bearer js ◌===◌ starts_with
admin_by_plain_key = refl

require_role-admin_iff_example :
    (require_role both_keys with_bearer admin ≡ ok tt) ↔ Presents with_bearer (js "root-key")
unfolding js starts_with bearer
require_role-admin_iff_example = require_role-admin_iff both_keys with_bearer refl refl

has_role-rank_example : has_role viewer admin ≡ leb (rank admin) (rank viewer)
has_role-rank_example = has_role-rank viewer admin
