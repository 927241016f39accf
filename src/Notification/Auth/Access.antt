-- ===== src/Notification/Auth/Access.antt =====
-- Who is let through by `requireRole` of notification-service/src/auth.ts.
use cosmosvote.Prelude.{
  ℕ, ◌≡◌, refl, sym, ap, ◌∙◌, subst, ◌↔◌, ◌≢◌, ◌⊎◌, inl, inr, Option, none, some, true, false,
  JsString, js, ===_iff, truthy, starts_with, append-drop, starts_with-append, drop-append, leb,
  ◌++◌, arith, Bool-cases, ok, throws,
}
use cosmosvote.Notification.Auth.{
  Role, admin, viewer, nobody, Keys, bearer, token_of, role_of_token, resolve_role, has_role,
  unauthorized, forbidden, require_role, read_keys,
}

abbrev pub rank : Role → ℕ
rank nobody = 0
rank viewer = 1
rank admin = 2

-- A role satisfies a required one exactly when it ranks as high.
pub has_role-rank :
    (actual required : Role) → has_role actual required ≡ leb (rank required) (rank actual)
unfolding has_role
has_role-rank admin admin = refl
has_role-rank admin viewer = refl
has_role-rank admin nobody = refl
has_role-rank viewer admin = refl
has_role-rank viewer viewer = refl
has_role-rank viewer nobody = refl
has_role-rank nobody admin = refl
has_role-rank nobody viewer = refl
has_role-rank nobody nobody = refl

-- The header carries the key, by itself or behind "Bearer ".
abbrev pub Presents : Option JsString → JsString → Type 0
Presents header key = (header ≡ some key) ⊎ (header ≡ some (bearer ++ key))

token_of-bearer : (key : JsString) → token_of (bearer ++ key) ≡ key
unfolding token_of bearer js
token_of-bearer key = rw (starts_with-append bearer key) (drop-append bearer key)

token_of-plain : (key : JsString) → starts_with key bearer ≡ false → token_of key ≡ key
unfolding token_of
token_of-plain key h = rw h

token_of-Presents : (header key : JsString) → token_of header ≡ key → Presents (some header) key
unfolding token_of bearer js
token_of-Presents header key h = elim (Bool-cases (starts_with header bearer)) [
  | inl e ↦ inr (ap some (sym (append-drop header bearer e) ∙ ap (λ t. bearer ++ t) (rw e at h)))
  | inr e ↦ inl (ap some (rw e at h))
]

role_of_token-admin :
    (keys : Keys) (token : JsString)
    → truthy keys.admin_key ≡ true
    → (role_of_token keys token ≡ admin) ↔ (token ≡ keys.admin_key)
unfolding role_of_token
role_of_token-admin keys token set = ground (arith, ===_iff token keys.admin_key)

role_of_token-viewer :
    (keys : Keys) (token : JsString)
    → truthy keys.admin_key ≡ true
    → truthy keys.viewer_key ≡ true
    → (role_of_token keys token ≢ nobody) ↔ ((token ≡ keys.admin_key) ⊎ (token ≡ keys.viewer_key))
unfolding role_of_token
role_of_token-viewer keys token set set' =
    ground (arith, ===_iff token keys.admin_key, ===_iff token keys.viewer_key)

require_role-viewer_ok :
    (keys : Keys) (header : Option JsString)
    → (require_role keys header viewer ≡ ok tt) ↔ (resolve_role keys header ≢ nobody)
unfolding require_role has_role
require_role-viewer_ok keys header = ground arith

require_role-admin_ok :
    (keys : Keys) (header : Option JsString)
    → (require_role keys header admin ≡ ok tt) ↔ (resolve_role keys header ≡ admin)
unfolding require_role has_role
require_role-admin_ok keys header = ground arith

-- A key that is set is no empty header, by itself or behind the prefix.
resolve_role-some :
    (keys : Keys) (header : JsString)
    → truthy header ≡ true
    → resolve_role keys (some header) ≡ role_of_token keys (token_of header)
unfolding resolve_role
resolve_role-some keys header h = rw h

resolve_role-Presents :
    (keys : Keys) (header : Option JsString) (key : JsString)
    → truthy key ≡ true
    → starts_with key bearer ≡ false
    → Presents header key
    → resolve_role keys header ≡ role_of_token keys key
unfolding bearer js
resolve_role-Presents keys header key set plain (inl e) =
    rw (e, resolve_role-some keys key set, token_of-plain key plain)
resolve_role-Presents keys header key set plain (inr e) =
    rw (e, resolve_role-some keys (bearer ++ key) refl, token_of-bearer key)

resolve_role-Presents_of :
    (keys : Keys) (header : Option JsString)
    → resolve_role keys header ≢ nobody
    → (token : JsString) × Presents header token
      × (resolve_role keys header ≡ role_of_token keys token)
unfolding resolve_role
resolve_role-Presents_of keys none h = absurd (h refl)
resolve_role-Presents_of keys (some header) h =
    (token_of header, token_of-Presents header _ refl, ground arith)

module _ (keys : Keys) (header : Option JsString) (set : truthy keys.admin_key ≡ true)
    (plain : starts_with keys.admin_key bearer ≡ false) where
  -- With an admin key that is set and does not begin with "Bearer ", an admin request passes
  -- exactly with the header that is the key, or the key behind "Bearer ".
  pub require_role-admin_iff :
      (require_role keys header admin ≡ ok tt) ↔ Presents header keys.admin_key
  require_role-admin_iff = (forth, back)
    where
      forth : require_role keys header admin ≡ ok tt → Presents header keys.admin_key
      forth e =
          let is_admin = (require_role-admin_ok keys header).0 e in
          let (token, p, r) = resolve_role-Presents_of keys header (λ n. cc) in
          subst (Presents header) ((role_of_token-admin keys token set).0 (sym r ∙ is_admin)) p

      back : Presents header keys.admin_key → require_role keys header admin ≡ ok tt
      back p = (require_role-admin_ok keys header).1 (
          resolve_role-Presents keys header keys.admin_key set plain p
          ∙ (role_of_token-admin keys keys.admin_key set).1 refl)

  -- With both keys set and neither beginning with "Bearer ", a viewer request passes exactly with
  -- a header that presents one of the two keys, bare or behind "Bearer ".
  pub require_role-viewer_iff :
      truthy keys.viewer_key ≡ true
      → starts_with keys.viewer_key bearer ≡ false
      → (require_role keys header viewer ≡ ok tt)
        ↔ (Presents header keys.admin_key ⊎ Presents header keys.viewer_key)
  require_role-viewer_iff set' plain' = (forth, back)
    where
      grant :
          (key : JsString)
          → truthy key ≡ true
          → starts_with key bearer ≡ false
          → (key ≡ keys.admin_key) ⊎ (key ≡ keys.viewer_key)
          → Presents header key
          → require_role keys header viewer ≡ ok tt
      grant key s q d p = (require_role-viewer_ok keys header).1 (
          subst (λ r. r ≢ nobody) (sym (resolve_role-Presents keys header key s q p))
            ((role_of_token-viewer keys key set set').1 d))

      found :
          (token : JsString)
          → Presents header token
          → (token ≡ keys.admin_key) ⊎ (token ≡ keys.viewer_key)
          → Presents header keys.admin_key ⊎ Presents header keys.viewer_key
      found token p (inl e) = inl (subst (Presents header) e p)
      found token p (inr e) = inr (subst (Presents header) e p)

      forth :
          require_role keys header viewer ≡ ok tt
          → Presents header keys.admin_key ⊎ Presents header keys.viewer_key
      forth e =
          let known = (require_role-viewer_ok keys header).0 e in
          let (token, p, r) = resolve_role-Presents_of keys header known in
          found token p
            ((role_of_token-viewer keys token set set').0 (subst (λ q. q ≢ nobody) r known))

      back :
          Presents header keys.admin_key ⊎ Presents header keys.viewer_key
          → require_role keys header viewer ≡ ok tt
      back (inl p) = grant keys.admin_key set plain (inl refl) p
      back (inr p) = grant keys.viewer_key set' plain' (inr refl) p

-- Where no key is configured, every request that needs a role is refused as unauthorized, whatever
-- its header.
pub require_role-read_keys_unset :
    (header : Option JsString) (required : Role)
    → required ≢ nobody
    → require_role (read_keys none none) header required ≡ throws unauthorized
unfolding require_role has_role resolve_role role_of_token read_keys
require_role-read_keys_unset header admin h = ground arith
require_role-read_keys_unset header viewer h = ground arith
require_role-read_keys_unset header nobody h = absurd (h refl)

-- A request is refused as forbidden exactly when a viewer asks for what needs an admin, and as
-- unauthorized exactly when a role is needed and the header gives none.
pub require_role-errors :
    (keys : Keys) (header : Option JsString) (required : Role)
    → ((require_role keys header required ≡ throws forbidden)
        ↔ ((resolve_role keys header ≡ viewer) × (required ≡ admin)))
      × ((require_role keys header required ≡ throws unauthorized)
          ↔ ((resolve_role keys header ≡ nobody) × (required ≢ nobody)))
unfolding require_role has_role
require_role-errors keys header admin = ground arith
require_role-errors keys header viewer = ground arith
require_role-errors keys header nobody = ground arith
