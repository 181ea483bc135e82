-- ===== src/Platform/Access.antt =====
-- internal/platform/auth: the principals of principal.go and the two middlewares of middleware.go.
-- A request context is the principals attached to it; the response of a rejection is its status and
-- message.
pub mod Guard
use Prim.Native.Char.{code}
use Prim.Native.String.{[], ◌∷◌}
use passwordless_auth_servic.Prelude.{
  ℕ, String, Bool, true, false, not, ◌||◌, Option, none, some, str_eq, ◌==◌, if◌then◌else◌,
}
use passwordless_auth_servic.Auth.Phone.{cut_prefix}
use passwordless_auth_servic.Auth.Failure.{Result, ok, err}
use passwordless_auth_servic.Platform.World.{World, Exec}

pub record Principal : Type 0 where
  pub account_id : String
  pub role : String

pub record AdminPrincipal : Type 0 where
  pub id : String

pub record Context : Type 0 where
  pub principal : Option Principal
  pub admin_principal : Option AdminPrincipal

-- `ContextWithPrincipal`, `ContextWithAdminPrincipal`
unfoldable pub context_with_principal : Context → Principal → Context
context_with_principal ctx p = record ctx { principal = some p }

unfoldable pub context_with_admin_principal : Context → AdminPrincipal → Context
context_with_admin_principal ctx p = record ctx { admin_principal = some p }

-- What comes of a request: a rejection by a middleware, or the handler's response.
pub data Response {ℓ} (A : Type ℓ) : Type ℓ where
  rejection : (status : ℕ) (message : String) → Response A
  handled : A → Response A

-- `bearerToken`
unfoldable pub bearer_token : String → String
unfolding cut_prefix
bearer_token header = elim (cut_prefix "Bearer " header) [ none ↦ "" | some token ↦ token ]

-- `SessionMiddleware`, over the validator's and the handler's code.
unfoldable pub session_middleware {ℓ} :
    {A : Type ℓ}
    → (String → World → Result Principal × World)
    → (Context → World → Response A × World)
    → String
    → Context
    → World
    → Response A × World
unfolding context_with_principal
session_middleware validate next header ctx w =
    if str_eq (bearer_token header) ""
    then (rejection 401 "missing session token", w)
    else (let (r, w') = validate (bearer_token header) w in
        elim r [
          | ok principal ↦ next (context_with_principal ctx principal) w'
          | err _ ↦ (rejection 401 "invalid or expired session", w')
        ])

-- `AdminMiddleware`. The comparison in constant time is an equality of the bytes.
unfoldable pub admin_middleware {ℓ} :
    {A : Type ℓ}
    → String
    → String
    → (Context → World → Response A × World)
    → String
    → Context
    → World
    → Response A × World
unfolding context_with_admin_principal
admin_middleware expected_key admin_id next header ctx w =
    if str_eq expected_key ""
      || str_eq (bearer_token header) ""
      || not (str_eq (bearer_token header) expected_key)
    then (rejection 401 "missing or invalid admin credential", w)
    else next (context_with_admin_principal ctx (record { id = admin_id })) w
