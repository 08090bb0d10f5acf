-- ===== src/Api/Routes.antt =====
-- Which handler serves a request: `Handler`, `dataRoutes`, `splitPath` and `requestIDMiddleware` of
-- internal/api/server.go, with `Middleware` of internal/auth/auth.go.
use barq_control_plane.Base.{
  ℕ, String, ◌==◌, ◌<>◌, is_blank, if◌then◌else◌, Bool, not, ◌&&◌, ◌||◌, Option, none, some, List,
  [], ◌∷◌, leb, len,
}
use barq_control_plane.Base.Lists.{is_nil}
use barq_control_plane.Base.Split.{split}
use barq_control_plane.Base.Suffix.{ends_with, trim_suffix, trim_char, replace_char}
use barq_control_plane.Base.Text.{starts_with, trim_prefix}
use barq_control_plane.Auth.Types.{ServiceKey}
use barq_control_plane.Auth.Tenants.{Scope}
use barq_control_plane.Auth.Access.{Principal, authenticate}
use barq_control_plane.SyncRules.Types.{World}
use barq_control_plane.Api.Types.{
  HttpRequest, message, Page, redirect, console, docs, openapi, unknown, page, Response, Route,
  root_page, control_page, console_page, openapi_page, docs_page, live_route, ready_route,
  data_route, hooks_route, hook_route, tenants_route, tenant_route, keys_route, key_route,
  operations_route, no_route, ApiEnv,
}
use barq_control_plane.Api.Replies.{route_error, write_json, write_error}
use barq_control_plane.Api.Tenants.{tenant_collection, tenant_member}
use barq_control_plane.Api.Keys.{api_key_collection, api_key_member}
use barq_control_plane.Api.Hooks.{webhook_collection, webhook_member, operations_health}
use barq_control_plane.Api.Rules.{sync_rule_routes, read_schema}
use barq_control_plane.Api.Objects.{ready, create_object, object, query, batch, change_schema}

-- splitPath
unfoldable pub split_path : String → List String
unfolding split trim_char
split_path path =
    let parts = split b'/' (trim_char b'/' path) in
    elim parts [ [] ↦ [] | part ∷ more ↦ if is_nil more && is_blank part then [] else part ∷ more ]

-- The request ID that `requestIDMiddleware` puts into the context.
unfoldable pub request_id_of : HttpRequest → String
unfolding replace_char
request_id_of r =
    if is_blank r.x_request_id
    then replace_char b':' "-" r.remote_addr <> "-request"
    else r.x_request_id

module _ {V C : Type 0} (env : ApiEnv V C) (r : HttpRequest) (p : Principal)
    (request_id : String) where
  abbrev pub objects_below : Scope → List String → World V C → Response V × World V C
  objects_below scope [] w = (write_error route_error, w)
  objects_below scope (object_type ∷ []) w =
      if ends_with object_type ":query" && r.method == "POST"
      then query env r p request_id scope (trim_suffix object_type ":query") w
      else if r.method == "POST"
      then create_object env r p request_id scope object_type w
      else (write_error route_error, w)
  objects_below scope (object_type ∷ primary_key ∷ []) w =
      object env r p request_id scope object_type primary_key w
  objects_below scope (object_type ∷ primary_key ∷ other ∷ more) w = (write_error route_error, w)

  abbrev pub rules_or_objects : Scope → String → List String → World V C → Response V × World V C
  rules_or_objects scope part more w =
      if part == "sync-rules" || starts_with part "sync-rules:"
      then sync_rule_routes env r p request_id scope (part ∷ more) w
      else if part == "objects"
      then objects_below scope more w
      else (write_error route_error, w)

  -- The routes below a database.
  abbrev pub database_routes : Scope → List String → World V C → Response V × World V C
  database_routes scope [] w = (write_error route_error, w)
  database_routes scope (part ∷ []) w =
      if part == "schema" && r.method == "GET"
      then read_schema env r p request_id scope w
      else if starts_with part "schema:" && r.method == "POST"
      then change_schema env r p request_id scope (trim_prefix part "schema:") w
      else rules_or_objects scope part [] w
  database_routes scope (part ∷ next ∷ more) w = rules_or_objects scope part (next ∷ more) w

  abbrev pub batch_or_routes : String → String → List String → World V C → Response V × World V C
  batch_or_routes tenant database more w =
      if ends_with database ":batch" && (r.method == "POST" && is_nil more)
      then batch env r p request_id
          (record { tenant = tenant; database = trim_suffix database ":batch" }) w
      else database_routes
          (record {
            tenant = tenant;
            database =
                if ends_with database ":batch" then trim_suffix database ":batch" else database;
          })
          more w

  abbrev pub data_parts : List String → World V C → Response V × World V C
  data_parts (tenants ∷ tenant ∷ databases ∷ database ∷ more) w =
      if tenants == "tenants" && databases == "databases"
      then batch_or_routes tenant database more w
      else (write_error route_error, w)
  data_parts _ w = (write_error route_error, w)

  unfoldable pub data_routes : World V C → Response V × World V C
  unfolding split_path trim_prefix trim_suffix ends_with starts_with query create_object object
      batch change_schema read_schema sync_rule_routes
  data_routes w = data_parts (split_path (trim_prefix r.path "/v1/")) w

-- The first test of `Middleware`.
abbrev pub lacks_bearer : String → Bool
lacks_bearer header = not (starts_with header "Bearer ") || leb (len header) 7

module _ {V C : Type 0} (env : ApiEnv V C) (r : HttpRequest) where
  abbrev pub page_of : ℕ → Page → World V C → Response V × World V C
  page_of status p w = (record { status = status; headers = []; payload = page p }, w)

  abbrev pub unauthenticated : World V C → Response V × World V C
  unauthenticated w = (
    write_json 401 (
        message (
          ("code", "unauthorized")
          ∷ (
            "message",
            if lacks_bearer r.authorization then "missing bearer API key" else "invalid API key",
          )
          ∷ [])),
    w,
  )

  -- The handlers that stand behind `auth.Middleware`.
  unfoldable pub protected_routes : Route → Principal → World V C → Response V × World V C
  unfolding data_routes request_id_of webhook_collection webhook_member tenant_collection
      tenant_member api_key_collection api_key_member operations_health
  protected_routes data_route p w = data_routes env r p (request_id_of r) w
  protected_routes hooks_route p w = webhook_collection env r p w
  protected_routes hook_route p w = webhook_member env r p w
  protected_routes tenants_route p w = tenant_collection env r p w
  protected_routes tenant_route p w = tenant_member env r p w
  protected_routes keys_route p w = api_key_collection env r p w
  protected_routes key_route p w = api_key_member env r p w
  protected_routes operations_route p w = operations_health env r p w
  protected_routes _ p w = page_of 404 unknown w

  abbrev pub authenticated : Route → Option ServiceKey → World V C → Response V × World V C
  authenticated route none w = unauthenticated w
  authenticated route (some key) w = protected_routes route (some key) w

  unfoldable pub serve : Route → World V C → Response V × World V C
  unfolding protected_routes authenticate ready
  serve root_page w = page_of 307 (redirect "/control/") w
  serve control_page w = page_of 308 (redirect "/control/") w
  serve console_page w = page_of 200 console w
  serve openapi_page w = page_of 200 openapi w
  serve docs_page w = page_of 200 docs w
  serve live_route w = (write_json 200 (message (("status", "ok") ∷ [])), w)
  serve ready_route w = ready env r w
  serve no_route w = page_of 404 unknown w
  serve route w = authenticated route (authenticate env.auth w.store r.authorization) w

  -- The header that `requestIDMiddleware` sets.
  abbrev pub with_request_id : Response V × World V C → Response V × World V C
  with_request_id x =
      (record x.0 { headers = ("X-Request-ID", request_id_of r) ∷ x.0.headers }, x.1)

  -- Handler
  unfoldable pub handle : World V C → Response V × World V C
  unfolding serve request_id_of
  handle w = with_request_id (serve (env.mux r.method r.path) w)
