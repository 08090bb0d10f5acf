-- ===== src/Api/Served/Routes.antt =====
-- The whole server.
use barq_control_plane.Base.{
  String, ◌≡◌, refl, ◌==◌, ◌&&◌, ◌||◌, Option, none, some, List, [], ◌∷◌, arith,
}
use barq_control_plane.Base.Lists.{is_nil}
use barq_control_plane.Base.Suffix.{ends_with, trim_suffix}
use barq_control_plane.Base.Text.{starts_with, trim_prefix}
use barq_control_plane.Auth.Types.{ServiceKey}
use barq_control_plane.Auth.Tenants.{Scope}
use barq_control_plane.Auth.Access.{Principal, authenticate}
use barq_control_plane.SyncRules.Types.{World}
use barq_control_plane.Api.Types.{
  HttpRequest, Route, ApiEnv, root_page, control_page, console_page, openapi_page, docs_page,
  live_route, ready_route, data_route, hooks_route, hook_route, tenants_route, tenant_route,
  keys_route, key_route, operations_route, unknown_route, no_route,
}
use barq_control_plane.Api.Replies.{write_error, route_error}
use barq_control_plane.Api.Rules.{read_schema, sync_rule_routes}
use barq_control_plane.Api.Objects.{batch, ready, create_object, query, change_schema}
use barq_control_plane.Api.Routes.{
  split_path, request_id_of, objects_below, rules_or_objects, database_routes, batch_or_routes,
  data_parts, data_routes, protected_routes, authenticated, serve, handle,
}
use barq_control_plane.Api.Served.{IsServed, attempt_leaves, if_leaves}
use barq_control_plane.Api.Served.Keys.{
  tenant_collection-respects, tenant_member-respects, api_key_collection-respects,
  api_key_member-respects,
}
use barq_control_plane.Api.Served.Hooks.{
  webhook_collection-respects, webhook_member-respects, operations_health-respects,
}
use barq_control_plane.Api.Served.Data.{
  sync_rule_routes-respects, read_schema-respects, create_object-respects, object-respects,
  query-respects, batch-respects, change_schema-respects,
}

module _ {V C : Type 0} (env : ApiEnv V C) (r : HttpRequest) (p : Principal) (request_id : String)
    (R : World V C → World V C → Type 0) (rule : IsServed env r p R) where
  objects_below-respects :
      (scope : Scope) (parts : List String) (w : World V C)
      → R w (objects_below env r p request_id scope parts w).1
  objects_below-respects scope [] w = rule.same w
  objects_below-respects scope (object_type ∷ []) w =
      if_leaves (R w) (ends_with object_type ":query" && r.method == "POST")
        (query env r p request_id scope (trim_suffix object_type ":query") w) _
        (λ h. query-respects env r p request_id R rule scope w (trim_suffix object_type ":query"))
        λ a.
          if_leaves (R w) (r.method == "POST")
            (create_object env r p request_id scope object_type w) (write_error route_error, w)
            (create_object-respects env r p request_id R rule scope w object_type) λ b. rule.same w
  objects_below-respects scope (object_type ∷ primary_key ∷ []) w =
      object-respects env r p request_id R rule scope w object_type primary_key
  objects_below-respects scope (object_type ∷ primary_key ∷ other ∷ more) w = rule.same w

  rules_or_objects-respects :
      (scope : Scope) (part : String) (more : List String) (w : World V C)
      → R w (rules_or_objects env r p request_id scope part more w).1
  rules_or_objects-respects scope part more w =
      if_leaves (R w) (part == "sync-rules" || starts_with part "sync-rules:")
        (sync_rule_routes env r p request_id scope (part ∷ more) w) _
        (λ h. sync_rule_routes-respects env r p request_id R rule scope (part ∷ more) w)
        λ a.
          if_leaves (R w) (part == "objects") (objects_below env r p request_id scope more w)
            (write_error route_error, w) (λ h. objects_below-respects scope more w) λ b. rule.same w

  database_routes-respects :
      (scope : Scope) (parts : List String) (w : World V C)
      → R w (database_routes env r p request_id scope parts w).1
  database_routes-respects scope [] w = rule.same w
  database_routes-respects scope (part ∷ []) w =
      if_leaves (R w) (part == "schema" && r.method == "GET")
        (read_schema env r p request_id scope w) _
        (λ h. read_schema-respects env r p request_id R rule scope w)
        λ a.
          if_leaves (R w) (starts_with part "schema:" && r.method == "POST")
            (change_schema env r p request_id scope (trim_prefix part "schema:") w)
            (rules_or_objects env r p request_id scope part [] w)
            (λ h.
              change_schema-respects env r p request_id R rule scope w (trim_prefix part "schema:")
                (ground (arith, h)))
            λ b. rules_or_objects-respects scope part [] w
  database_routes-respects scope (part ∷ next ∷ more) w =
      rules_or_objects-respects scope part (next ∷ more) w

  batch_or_routes-respects :
      (tenant database : String) (more : List String) (w : World V C)
      → R w (batch_or_routes env r p request_id tenant database more w).1
  batch_or_routes-respects tenant database more w =
      if_leaves (R w) (ends_with database ":batch" && (r.method == "POST" && is_nil more))
        (batch env r p request_id
          (record { tenant = tenant; database = trim_suffix database ":batch" }) w)
        _ (λ h. batch-respects env r p request_id R rule _ w (ground (arith, h)))
        λ a. database_routes-respects _ more w

  data_parts-respects :
      (parts : List String) (w : World V C) → R w (data_parts env r p request_id parts w).1
  data_parts-respects (tenants ∷ tenant ∷ databases ∷ database ∷ more) w =
      if_leaves (R w) (tenants == "tenants" && databases == "databases")
        (batch_or_routes env r p request_id tenant database more w) (write_error route_error, w)
        (λ h. batch_or_routes-respects tenant database more w) λ a. rule.same w
  data_parts-respects [] w = rule.same w
  data_parts-respects (a ∷ []) w = rule.same w
  data_parts-respects (a ∷ b ∷ []) w = rule.same w
  data_parts-respects (a ∷ b ∷ c ∷ []) w = rule.same w

  data_routes-respects : (w : World V C) → R w (data_routes env r p request_id w).1
  unfolding data_routes
  data_routes-respects w = data_parts-respects (split_path (trim_prefix r.path "/v1/")) w

module _ {V C : Type 0} (env : ApiEnv V C) (r : HttpRequest)
    (R : World V C → World V C → Type 0) where
  protected_routes-respects :
      (route : Route) (p : Principal) (w : World V C)
      → IsServed env r p R
      → R w (protected_routes env r route p w).1
  unfolding protected_routes
  protected_routes-respects data_route p w rule =
      data_routes-respects env r p (request_id_of r) R rule w
  protected_routes-respects hooks_route p w rule = webhook_collection-respects env r p R rule w
  protected_routes-respects hook_route p w rule = webhook_member-respects env r p R rule w
  protected_routes-respects tenants_route p w rule = tenant_collection-respects env r p R rule w
  protected_routes-respects tenant_route p w rule = tenant_member-respects env r p R rule w
  protected_routes-respects keys_route p w rule = api_key_collection-respects env r p R rule w
  protected_routes-respects key_route p w rule = api_key_member-respects env r p R rule w
  protected_routes-respects operations_route p w rule = operations_health-respects env r p R rule w
  protected_routes-respects root_page p w rule = rule.same w
  protected_routes-respects control_page p w rule = rule.same w
  protected_routes-respects console_page p w rule = rule.same w
  protected_routes-respects openapi_page p w rule = rule.same w
  protected_routes-respects docs_page p w rule = rule.same w
  protected_routes-respects live_route p w rule = rule.same w
  protected_routes-respects ready_route p w rule = rule.same w
  protected_routes-respects unknown_route p w rule = rule.same w
  protected_routes-respects no_route p w rule = rule.same w

  module _ (w : World V C) (same : (v : World V C) → R v v)
      (rule : (key : ServiceKey)
        → authenticate env.auth w.store r.authorization ≡ some key
        → IsServed env r (some key) R) where
    authenticated-respects :
        (route : Route) (o : Option ServiceKey)
        → authenticate env.auth w.store r.authorization ≡ o
        → R w (authenticated env r route o w).1
    authenticated-respects route none e = same w
    authenticated-respects route (some key) e =
        protected_routes-respects route (some key) w (rule key e)

    serve-respects : (route : Route) → R w (serve env r route w).1
    unfolding serve ready
    serve-respects root_page = same w
    serve-respects control_page = same w
    serve-respects console_page = same w
    serve-respects openapi_page = same w
    serve-respects docs_page = same w
    serve-respects live_route = same w
    serve-respects ready_route =
        attempt_leaves (R w) (env.objects.health w.core) w _ (same w) λ health done. same w
    serve-respects no_route = same w
    serve-respects data_route = authenticated-respects data_route _ refl
    serve-respects hooks_route = authenticated-respects hooks_route _ refl
    serve-respects hook_route = authenticated-respects hook_route _ refl
    serve-respects tenants_route = authenticated-respects tenants_route _ refl
    serve-respects tenant_route = authenticated-respects tenant_route _ refl
    serve-respects keys_route = authenticated-respects keys_route _ refl
    serve-respects key_route = authenticated-respects key_route _ refl
    serve-respects unknown_route = authenticated-respects unknown_route _ refl
    serve-respects operations_route = authenticated-respects operations_route _ refl

    pub handle-respects : R w (handle env r w).1
    unfolding handle
    handle-respects = serve-respects (env.mux r.method r.path)
