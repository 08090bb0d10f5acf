-- ===== src/Auth/Tenants.antt =====
-- The operations of `Manager` on tenants: internal/auth/manager.go. The mutex makes each of them one
-- step, so an operation is a function of the store.
use barq_control_plane.Base.{
  ℕ, String, is_blank, if◌then◌else◌, Bool, true, false, not, ◌||◌, ltb, len, Option, none, some,
  List, [], ◌∷◌, ◌++◌, Error, Result, ok, err, ◌>>=◌, ◌>>◌, ensure, wrap, ◌<>◌,
}
use barq_control_plane.Base.Order.{str_leb}
use barq_control_plane.Base.Sorting.{sort_by}
use barq_control_plane.Base.Text.{trim_space}
use barq_control_plane.Control.Types.{Record, decode, encode}
use barq_control_plane.Control.Checks.{invalid, is_some}
use barq_control_plane.Control.Store.{Store, get, list}
use barq_control_plane.Auth.Types.{
  Time, Tenant, CreateTenantInput, UpdateTenantInput, AuthEnv, Write, run_write, forget_answer,
  or_nil, tenant_collection,
}
use barq_control_plane.Auth.Patterns.{valid_identity}
use barq_control_plane.Auth.Normalize.{normalize_databases}

-- A name of 1 to 120 bytes.
abbrev pub name_fits : String → Bool
name_fits name = not (is_blank name || ltb 120 (len name))

abbrev pub name_error : Error
name_error = invalid "tenant name must be 1 to 120 characters"

-- dataplane.Scope
pub record Scope : Type 0 where
  pub tenant : String
  pub database : String

abbrev pub tenant_leb : Tenant → Tenant → Bool
tenant_leb a b = str_leb a.id b.id

unfoldable pub new_name : Option String → String → Result String
new_name none old = ok old
new_name (some raw) old = do let name = trim_space raw; ensure (name_fits name) name_error; ok name

unfoldable pub new_databases : Option (List String) → List String → Result (List String)
new_databases none old = ok old
new_databases (some input) old = normalize_databases input

abbrev pub new_flag : Option Bool → Bool → Bool
new_flag none old = old
new_flag (some flag) old = flag

abbrev pub disabling : UpdateTenantInput
disabling = record { name = none; databases = none; enabled = some false }

-- The scopes of the tenants that are enabled, tenant by tenant.
unfoldable pub scopes_of : String → List String → List Scope
scopes_of tenant [] = []
scopes_of tenant (d ∷ ds) = record { tenant = tenant; database = d } ∷ scopes_of tenant ds

unfoldable pub enabled_scopes : List Tenant → List Scope
unfolding scopes_of
enabled_scopes [] = []
enabled_scopes (t ∷ ts) =
    let later = enabled_scopes ts in
    if t.enabled then scopes_of t.id t.databases ++ later else later

module _ {V : Type 0} (env : AuthEnv V) where
  -- getTenant, with the version of the record
  unfoldable pub read_tenant : Store V → String → Result (Tenant × ℕ)
  read_tenant s id = do
    r ← get s tenant_collection id
    tenant ← decode env.tenants r
    ok (tenant, r.version)

  -- GetTenant
  unfoldable pub get_tenant : Store V → String → Result Tenant
  unfolding read_tenant
  get_tenant s id = do found ← read_tenant s id; ok found.0

  decode_tenants : List (Record V) → Result (List Tenant)
  decode_tenants [] = ok []
  decode_tenants (r ∷ rs) =
      let later = decode_tenants rs in
      elim (decode env.tenants r) [
        | err e ↦ err (wrap ("read tenant " <> (r.key <> ": ")) e)
        | ok tenant ↦ later >>= λ tenants. ok (tenant ∷ tenants)
      ]

  unfoldable pub list_tenants : Store V → Result (List Tenant)
  unfolding decode_tenants sort_by
  list_tenants s = do
    records ← list s tenant_collection ""
    tenants ← decode_tenants records
    ok (sort_by tenant_leb tenants)

  unfoldable pub plan_create_tenant : Time → CreateTenantInput → Result (Write V Tenant)
  plan_create_tenant now input = do
    let id = trim_space input.id
    let name = trim_space input.name
    ensure (valid_identity id)
        (invalid "tenant id must use letters, numbers, dashes, or underscores")
    ensure (name_fits name) name_error
    databases ← normalize_databases input.databases
    let tenant : Tenant = record {
      id = id;
      name = name;
      databases = databases;
      enabled = true;
      created_at = now;
      updated_at = now;
    }
    value ← encode env.tenants tenant
    ok (record {
      collection = tenant_collection;
      key = id;
      value = value;
      expected = some 0;
      answer = tenant;
    })

  unfoldable pub create_tenant : Time → CreateTenantInput → Store V → Result Tenant × Store V
  create_tenant now input s = run_write env.valid s (plan_create_tenant now input)

  unfoldable pub plan_update_tenant :
      Time → String → UpdateTenantInput → Store V → Result (Write V Tenant)
  unfolding new_name new_databases
  plan_update_tenant now id input s = do
    ensure (is_some input.name || is_some input.databases || is_some input.enabled)
        (invalid "tenant update has no changes")
    found ← read_tenant s id
    let old = found.0
    name ← new_name input.name old.name
    databases ← new_databases input.databases old.databases
    let tenant : Tenant = record old {
      name = name;
      databases = databases;
      enabled = new_flag input.enabled old.enabled;
      updated_at = now;
    }
    ok (record {
      collection = tenant_collection;
      key = tenant.id;
      value = or_nil env.nil (encode env.tenants tenant);
      expected = some found.1;
      answer = tenant;
    })

  unfoldable pub update_tenant :
      Time → String → UpdateTenantInput → Store V → Result Tenant × Store V
  update_tenant now id input s = run_write env.valid s (plan_update_tenant now id input s)

  unfoldable pub disable_tenant : Time → String → Store V → Result (Unit {0}) × Store V
  disable_tenant now id s = forget_answer (update_tenant now id disabling s)

  -- Scopes
  unfoldable pub scopes : Store V → Result (List Scope)
  scopes s = do tenants ← list_tenants s; ok (enabled_scopes tenants)
