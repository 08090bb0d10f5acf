-- ===== src/Api/Keys/Laws.antt =====
-- Which keys a principal may create and manage.
use barq_control_plane.Base.{String, ◌≡◌, eq_iff, true, some, ok, ◌↔◌, arith, ◌⊎◌}
use barq_control_plane.Auth.Types.{ServiceKey}
use barq_control_plane.Auth.Access.{allows_action, authorize, authorize_action, can_access_scope}
use barq_control_plane.Api.Keys.{authorize_key_scope, key_action}

-- The scope of keys lies within the principal's, and the principal may manage keys.
pub record MayManage (p : ServiceKey) (tenant database : String) : Type 0 where
  pub allowed : allows_action p.actions key_action ≡ true
  pub tenant_within : (p.tenant ≡ "*") ⊎ (p.tenant ≡ tenant)
  pub database_within : (p.database ≡ "*") ⊎ (p.database ≡ database)
  pub global_only : tenant ≡ "*" → (p.tenant ≡ "*") × (p.database ≡ "*")

to_managed :
    (p : ServiceKey) (tenant database : String)
    → authorize_key_scope (some p) tenant database ≡ ok tt
    → MayManage p tenant database
unfolding authorize_key_scope authorize authorize_action can_access_scope
to_managed p tenant database h = record {
  allowed = ground (arith, h);
  tenant_within = ground (arith, h, eq_iff p.tenant "*", eq_iff p.tenant tenant);
  database_within = ground (arith, h, eq_iff p.database "*", eq_iff p.database database);
  global_only =
      λ e. ground (arith, h, e, eq_iff p.tenant "*", eq_iff p.database "*", eq_iff tenant "*");
}

from_managed :
    (p : ServiceKey) (tenant database : String)
    → MayManage p tenant database
    → authorize_key_scope (some p) tenant database ≡ ok tt
unfolding authorize_key_scope authorize authorize_action can_access_scope
from_managed p tenant database m = ground (
  arith,
  m.allowed,
  m.tenant_within,
  m.database_within,
  m.global_only,
  eq_iff p.tenant "*",
  eq_iff p.tenant tenant,
  eq_iff p.database "*",
  eq_iff p.database database,
  eq_iff tenant "*",
  eq_iff database "*",
)

-- A principal may create and manage keys of a scope exactly if it allows `keys:admin`, its own scope
-- covers the scope's tenant and database, where `*` covers all, and it is global if the keys are.
pub authorize_key_scope_iff :
    (p : ServiceKey) (tenant database : String)
    → (authorize_key_scope (some p) tenant database ≡ ok tt) ↔ MayManage p tenant database
authorize_key_scope_iff p tenant database =
    (to_managed p tenant database, from_managed p tenant database)
