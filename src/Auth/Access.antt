-- ===== src/Auth/Access.antt =====
-- Who may do what: `FindByDigest` of internal/auth/manager.go, and internal/auth/auth.go.
pub mod Laws
use barq_control_plane.Base.{
  ℕ, String, ◌==◌, is_blank, if◌then◌else◌, Bool, true, false, not, ◌&&◌, ◌||◌, leb, ltb, len,
  Option, none, some, List, [], ◌∷◌, Error, Result, ok, err, ◌>>=◌, ◌>>◌, ensure, coded, ◌<>◌,
  is_code, forbidden, unauthorized, internal, not_found,
}
use barq_control_plane.Base.Lists.{contains}
use barq_control_plane.Base.Text.{trim_space, starts_with, trim_prefix}
use barq_control_plane.Control.Types.{Record, decode}
use barq_control_plane.Control.Store.{Store, get}
use barq_control_plane.Auth.Types.{
  Tenant, ServiceKey, AuthEnv, unauthorized_error, api_key_collection,
}
use barq_control_plane.Auth.Tenants.{Scope, read_tenant}

-- The tests of `FindByDigest` on a tenant that was read.
abbrev pub tenant_admits : Result (Tenant × ℕ) → String → Bool
tenant_admits (err e) database = false
tenant_admits (ok (tenant, version)) database =
    tenant.enabled && (database == "*" || contains tenant.databases database)

module _ {V : Type 0} (env : AuthEnv V) where
  unfoldable pub admit_key : Store V → ServiceKey → Result ServiceKey
  admit_key s key = do
    ensure key.enabled unauthorized_error
    ensure (key.tenant == "*" || tenant_admits (read_tenant env s key.tenant) key.database)
        unauthorized_error
    ok key

  unfoldable pub find_by_digest : Store V → String → Result ServiceKey
  unfolding admit_key
  find_by_digest s digest = elim (get s api_key_collection digest) [
    | err e ↦ err (if is_code e not_found then unauthorized_error else e)
    | ok r ↦ elim (decode env.keys r) [
      | err e ↦ err (coded internal "invalid stored API key")
      | ok key ↦ admit_key s key
    ]
  ]

  -- The key that `Middleware` puts into the context of the request, or none where it answers 401.
  unfoldable pub authenticate : Store V → String → Option ServiceKey
  authenticate s header =
      if not (starts_with header "Bearer ") || leb (len header) 7
      then none
      else let digest = env.digest (trim_space (trim_prefix header "Bearer ")) in
        elim (find_by_digest s digest) [
          | err e ↦ none
          | ok key ↦ if not key.enabled || not (key.digest == digest) then none else some key
        ]

-- The principal of a request, as the context holds it.
abbrev pub Principal : Type 0
Principal = Option ServiceKey

abbrev pub authentication_required : Error
authentication_required = coded unauthorized "authentication required"

unfoldable pub can_access_scope : Principal → Scope → Bool
can_access_scope none scope = false
can_access_scope (some key) scope =
    (key.tenant == "*" || key.tenant == scope.tenant)
    && (key.database == "*" || key.database == scope.database)

unfoldable pub allows_action : List String → String → Bool
allows_action [] action = false
allows_action (allowed ∷ rest) action =
    if allowed == "*" || allowed == action then true else allows_action rest action

unfoldable pub authorize_action : Principal → String → Result (Unit {0})
unfolding allows_action
authorize_action none action = err authentication_required
authorize_action (some key) action =
    ensure (allows_action key.actions action)
      (coded forbidden ("API key is missing action " <> action))

unfoldable pub authorize : Principal → Scope → String → Result (Unit {0})
unfolding authorize_action can_access_scope
authorize none scope action = err authentication_required
authorize (some key) scope action =
    if not (can_access_scope (some key) scope)
    then err (
        coded forbidden (
          if not (key.tenant == "*") && not (key.tenant == scope.tenant)
          then "API key cannot access this tenant"
          else "API key cannot access this database"))
    else authorize_action (some key) action

abbrev pub is_global : Principal → Bool
is_global none = false
is_global (some key) = key.tenant == "*" && key.database == "*"

unfoldable pub authorize_global : Principal → String → Result (Unit {0})
unfolding authorize_action
authorize_global p action = do
  authorize_action p action
  ensure (is_global p) (coded forbidden "a global admin API key is required")
