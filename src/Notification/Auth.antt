-- ===== src/Notification/Auth.antt =====
-- notification-service/src/auth.ts: roles by API key. The two keys are read from the environment
-- once and are a parameter of each function.
mod Examples
pub mod Access
use cosmosvote.Prelude.{
  Option, Bool, true, false, ◌&&◌, ◌||◌, JsString, js, ◌===◌, truthy, or_else, starts_with, drop,
  if◌then◌else◌, Result, ok, throws, some, none, [],
}

pub data Role : Type 0 where
  admin viewer nobody : Role

pub record Keys : Type 0 where
  pub admin_key : JsString
  pub viewer_key : JsString

-- `process.env.ADMIN_API_KEY ?? ''` and `process.env.VIEWER_API_KEY ?? ''`.
pub read_keys : Option JsString → Option JsString → Keys
read_keys admin_api_key viewer_api_key = record {
  admin_key = or_else admin_api_key [];
  viewer_key = or_else viewer_api_key [];
}

pub bearer : JsString
unfolding js
bearer = js "Bearer "

pub token_of : JsString → JsString
token_of header = if starts_with header bearer then drop 7 header else header

pub role_of_token : Keys → JsString → Role
role_of_token keys token =
    if truthy keys.admin_key && token === keys.admin_key
    then admin
    else if truthy keys.viewer_key && token === keys.viewer_key
    then viewer
    else nobody

pub resolve_role : Keys → Option JsString → Role
resolve_role keys none = nobody
resolve_role keys (some header) =
    if truthy header then role_of_token keys (token_of header) else nobody

-- `actual === expected`.
pub same_role : Role → Role → Bool
same_role admin admin = true
same_role viewer viewer = true
same_role nobody nobody = true
same_role _ _ = false

pub has_role : Role → Role → Bool
unfolding same_role
has_role actual nobody = true
has_role actual viewer = same_role actual viewer || same_role actual admin
has_role actual admin = same_role actual admin

-- The `code` of the error that is thrown; each goes with one message.
pub data AuthError : Type 0 where
  unauthorized forbidden : AuthError

pub message : AuthError → JsString
message unauthorized = js "Unauthorized: missing or invalid API key."
message forbidden = js "Forbidden: insufficient role."

pub require_role : Keys → Option JsString → Role → Result AuthError (Unit {0})
require_role keys header required =
    let role = resolve_role keys header in
    if has_role role required
    then ok tt
    else throws (if same_role role nobody then unauthorized else forbidden)
