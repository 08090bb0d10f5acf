-- ===== src/Api/Safety/Reader.antt =====
-- Keys without an action that changes anything.
use barq_control_plane.Base.{
  String, ◌≡◌, refl, ◌==◌, false, not, ◌&&◌, ◌||◌, some, ok, inl, inr, Bool-cases,
}
use barq_control_plane.Auth.Types.{ServiceKey}
use barq_control_plane.Auth.Tenants.{Scope}
use barq_control_plane.Auth.Access.{
  allows_action, authorize_action, authorize, authorize_global, can_access_scope, authenticate,
}
use barq_control_plane.SyncRules.Types.{World}
use barq_control_plane.Api.Types.{HttpRequest, ApiEnv}
use barq_control_plane.Api.Keys.{authorize_key_scope, cannot_grant, key_action}
use barq_control_plane.Api.Tenants.{tenant_action}
use barq_control_plane.Api.Hooks.{hook_action}
use barq_control_plane.Api.Rules.{rule_action}
use barq_control_plane.Api.Routes.{handle}
use barq_control_plane.Api.Served.{IsServed}
use barq_control_plane.Api.Served.Routes.{handle-respects}

-- The key allows none of the actions under which something is written.
pub record IsReader (key : ServiceKey) : Type 0 where
  pub no_write : allows_action key.actions "write" ≡ false
  pub no_schema : allows_action key.actions "schema:admin" ≡ false
  pub no_rules : allows_action key.actions rule_action ≡ false
  pub no_hooks : allows_action key.actions hook_action ≡ false
  pub no_tenants : allows_action key.actions tenant_action ≡ false
  pub no_keys : allows_action key.actions key_action ≡ false

authorize_action_refused :
    {A : Type 0} (key : ServiceKey) (action : String) (u : Unit {0})
    → allows_action key.actions action ≡ false
    → authorize_action (some key) action ≡ ok u
    → A
unfolding authorize_action
authorize_action_refused key action u lacks h = cc (rw lacks at h)

authorize_refused :
    {A : Type 0} (key : ServiceKey) (scope : Scope) (action : String) (u : Unit {0})
    → allows_action key.actions action ≡ false
    → authorize (some key) scope action ≡ ok u
    → A
unfolding authorize
authorize_refused key scope action u lacks h =
    elim (Bool-cases (not (can_access_scope (some key) scope))) [
      | inl p ↦ cc (rw p at h)
      | inr p ↦ authorize_action_refused key action u lacks (rw p at h)
    ]

authorize_global_refused :
    {A : Type 0} (key : ServiceKey) (action : String) (u : Unit {0})
    → allows_action key.actions action ≡ false
    → authorize_global (some key) action ≡ ok u
    → A
unfolding authorize_global authorize_action
authorize_global_refused key action u lacks h = cc (rw lacks at h)

authorize_key_scope_refused :
    {A : Type 0} (key : ServiceKey) (tenant database : String) (u : Unit {0})
    → allows_action key.actions key_action ≡ false
    → authorize_key_scope (some key) tenant database ≡ ok u
    → A
unfolding authorize_key_scope
authorize_key_scope_refused key tenant database u lacks h =
    elim (Bool-cases
      ((tenant == "*" || database == "*") && cannot_grant (some key) tenant database)) [
        | inl p ↦ cc (rw p at h)
        | inr p ↦
            authorize_refused key (record { tenant = tenant; database = database }) key_action u
              lacks (rw p at h)
      ]

module _ {V C : Type 0} (env : ApiEnv V C) (r : HttpRequest) where
  reader-IsServed : (key : ServiceKey) → IsReader key → IsServed env r (some key) (λ w v. v ≡ w)
  reader-IsServed key reader = record {
    same = λ w. refl;
    tenant_created =
        λ input w u m h. authorize_global_refused key tenant_action u reader.no_tenants h;
    tenant_updated =
        λ id input w u m h. authorize_global_refused key tenant_action u reader.no_tenants h;
    tenant_disabled =
        λ id w u m h. authorize_global_refused key tenant_action u reader.no_tenants h;
    key_created = λ input w u m h. authorize_key_scope_refused key _ _ u reader.no_keys h;
    key_rotated = λ id k w u m f h. authorize_key_scope_refused key _ _ u reader.no_keys h;
    key_updated = λ id k input w u m f h. authorize_key_scope_refused key _ _ u reader.no_keys h;
    key_revoked = λ id k w u m f h. authorize_key_scope_refused key _ _ u reader.no_keys h;
    hook_registered = λ input w u m h. authorize_refused key _ hook_action u reader.no_hooks h;
    hook_updated =
        λ id hook input w u v m f h g. authorize_refused key _ hook_action u reader.no_hooks h;
    hook_disabled = λ id hook w u m f h. authorize_refused key _ hook_action u reader.no_hooks h;
    secret_rotated = λ hook w u m h. authorize_refused key _ hook_action u reader.no_hooks h;
    replayed = λ hook w u m h. authorize_refused key _ hook_action u reader.no_hooks h;
    rules_read = λ scope id w u m h. authorize_refused key _ rule_action u reader.no_rules h;
    rules_applied = λ scope input w u m h. authorize_refused key _ rule_action u reader.no_rules h;
    rules_restored =
        λ scope n input w u m h. authorize_refused key _ rule_action u reader.no_rules h;
    object_written = λ request w u m h. authorize_refused key _ "write" u reader.no_write h;
    batch_run = λ request w u m h. authorize_refused key _ "write" u reader.no_write h;
    schema_applied = λ request w u m h. authorize_refused key _ "schema:admin" u reader.no_schema h;
  }

  -- A request that is not authenticated, or by a key that allows none of the actions under which
  -- something is written, leaves the control database and Core as they are, whatever its method,
  -- path and body and whatever routing does with it.
  pub handle_reader :
      (w : World V C)
      → ((key : ServiceKey)
          → authenticate env.auth w.store r.authorization ≡ some key
          → IsReader key)
      → (handle env r w).1 ≡ w
  handle_reader w reader =
      handle-respects env r (λ w v. v ≡ w) w (λ v. refl) λ key e. reader-IsServed key (reader key e)
