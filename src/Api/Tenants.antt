-- ===== src/Api/Tenants.antt =====
-- The endpoints of tenants: `tenantCollection` and `tenantMember` of internal/api/server.go.
use barq_control_plane.Base.{
  String, ◌==◌, is_blank, if◌then◌else◌, not, ◌||◌, none, some, List, [], ◌∷◌,
}
use barq_control_plane.Base.Suffix.{has_char}
use barq_control_plane.Base.Text.{trim_prefix}
use barq_control_plane.Auth.Types.{Tenant}
use barq_control_plane.Auth.Tenants.{
  list_tenants, get_tenant, create_tenant, update_tenant, disable_tenant,
}
use barq_control_plane.Auth.Access.{Principal, authorize, authorize_action, authorize_global}
use barq_control_plane.SyncRules.Types.{World}
use barq_control_plane.Api.Types.{HttpRequest, Response, ApiEnv, tenants_answer, tenant_answer}
use barq_control_plane.Api.Replies.{
  route_error, decode_json, write_json, write_error, write_no_content, not_allowed, attempt,
  after_store,
}

abbrev pub tenant_action : String
tenant_action = "tenants:admin"

-- `principal.Tenant`; the zero key has the empty one.
abbrev pub principal_tenant : Principal → String
principal_tenant none = ""
principal_tenant (some key) = key.tenant

unfoldable pub own_tenants : String → List Tenant → List Tenant
own_tenants id [] = []
own_tenants id (t ∷ ts) = let rest = own_tenants id ts in if t.id == id then t ∷ rest else rest

abbrev pub visible_tenants : Principal → List Tenant → List Tenant
visible_tenants p tenants =
    if not (principal_tenant p == "*") then own_tenants (principal_tenant p) tenants else tenants

module _ {V C : Type 0} (env : ApiEnv V C) (r : HttpRequest) (p : Principal) where
  abbrev pub post_tenant : World V C → Response V × World V C
  post_tenant w = attempt (authorize_global p tenant_action) w λ u.
      attempt (decode_json env.bodies.create_tenant r.body) w λ input.
        after_store (λ tenant. write_json 201 (tenant_answer tenant)) w
          (create_tenant env.auth (r.clock 0) input w.store)

  abbrev pub get_tenants : World V C → Response V × World V C
  get_tenants w = attempt (authorize_action p tenant_action) w λ u.
      attempt (list_tenants env.auth w.store) w
        λ tenants. (write_json 200 (tenants_answer (visible_tenants p tenants)), w)

  unfoldable pub tenant_collection : World V C → Response V × World V C
  unfolding decode_json own_tenants authorize_global authorize_action list_tenants create_tenant
  tenant_collection w =
      if r.method == "GET"
      then get_tenants w
      else if r.method == "POST"
      then post_tenant w
      else (not_allowed "GET, POST", w)

  abbrev pub show_tenant : Tenant → World V C → Response V × World V C
  show_tenant tenant w =
      attempt (authorize p (record { tenant = tenant.id; database = "*" }) tenant_action) w
        λ u. (write_json 200 (tenant_answer tenant), w)

  abbrev pub patch_tenant : String → World V C → Response V × World V C
  patch_tenant id w = attempt (authorize_global p tenant_action) w λ u.
      attempt (decode_json env.bodies.update_tenant r.body) w λ input.
        after_store (λ tenant. write_json 200 (tenant_answer tenant)) w
          (update_tenant env.auth (r.clock 0) id input w.store)

  abbrev pub delete_tenant : String → World V C → Response V × World V C
  delete_tenant id w =
      attempt (authorize_global p tenant_action) w λ u.
        after_store (λ done. write_no_content) w (disable_tenant env.auth (r.clock 0) id w.store)

  abbrev pub found_tenant : String → Tenant → World V C → Response V × World V C
  found_tenant id tenant w =
      if r.method == "GET"
      then show_tenant tenant w
      else if r.method == "PATCH"
      then patch_tenant id w
      else if r.method == "DELETE"
      then delete_tenant id w
      else (not_allowed "GET, PATCH, DELETE", w)

  unfoldable pub tenant_member : World V C → Response V × World V C
  unfolding decode_json has_char trim_prefix authorize authorize_global get_tenant update_tenant
      disable_tenant
  tenant_member w =
      let id = trim_prefix r.path "/v1/admin/tenants/" in
      if is_blank id || has_char b'/' id
      then (write_error route_error, w)
      else attempt (get_tenant env.auth w.store id) w λ tenant. found_tenant id tenant w
