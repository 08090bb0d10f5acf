-- ===== src/Api/Types.antt =====
-- Requests and responses of the HTTP server: internal/api/server.go.
use barq_control_plane.Base.{ℕ, String, Bool, Option, List, Error}
use barq_control_plane.Auth.Types.{
  Time, Tenant, CreateTenantInput, UpdateTenantInput, ServiceKeyView, CreateServiceKeyInput,
  UpdateServiceKeyInput, CreatedServiceKey, AuthEnv,
}
use barq_control_plane.DataPlane.{EventContext}
use barq_control_plane.DataPlane.Objects.{
  Object, WriteResult, QueryRequest, QueryResult, BatchRequest, BatchResult, SchemaRequest,
  SchemaResult, Health, ObjectPlane,
}
use barq_control_plane.Webhooks.Types.{
  Webhook, Registration, Registered, Outcome, OperationalHealth, HookEnv,
}
use barq_control_plane.SyncRules.Types.{
  FlxRule, FlxRuleSet, FlxRulesResult, FlxRulesTestResult, Schema, Revision, Core, RulesEnv,
}

-- What a handler reads of a request; `body` is what `io.LimitReader` lets through, and `clock` has what
-- the clocks give while the request is served, in order.
pub record HttpRequest : Type 0 where
  pub method : String
  pub path : String
  pub body : String
  pub authorization : String
  pub x_request_id : String
  pub remote_addr : String
  pub idempotency_key : String
  pub if_match : String
  pub clock : ℕ → Time

-- What the JSON decoder makes of a body: an error, or a value, and whether the body ends after it.
pub data Decoded (T : Type 0) : Type 0 where
  undecodable : String → Decoded T
  decoded : T → Bool → Decoded T

-- The bodies that have no type of their own in the code.
pub record RuleBody : Type 0 where
  pub expected_revision : ℕ
  pub rules : List FlxRule

pub record RestoreBody : Type 0 where
  pub expected_revision : ℕ

pub record RuleTestBody (V : Type 0) : Type 0 where
  pub user_id : String
  pub object_type : String
  pub primary_key : V
  pub rules : List FlxRule

pub record CreateBody (V : Type 0) : Type 0 where
  pub primary_key : V
  pub fields : Option V

-- encoding/json at the types that handlers decode.
pub record Bodies (V : Type 0) : Type 0 where
  pub create_tenant : String → Decoded CreateTenantInput
  pub update_tenant : String → Decoded UpdateTenantInput
  pub create_key : String → Decoded CreateServiceKeyInput
  pub update_key : String → Decoded UpdateServiceKeyInput
  pub registration : String → Decoded (Registration V)
  pub event : String → Decoded (EventContext V)
  pub rule : String → Decoded RuleBody
  pub restore : String → Decoded RestoreBody
  pub rule_test : String → Decoded (RuleTestBody V)
  pub create : String → Decoded (CreateBody V)
  pub patch : String → Decoded (Option V)
  pub query : String → Decoded (QueryRequest V)
  pub batch : String → Decoded (BatchRequest V)
  pub schema : String → Decoded (SchemaRequest V)

-- What is written as JSON.
pub data Answer (V : Type 0) : Type 0 where
  error_answer : Error → Answer V
  message : List (String × String) → Answer V
  tenants_answer : List Tenant → Answer V
  tenant_answer : Tenant → Answer V
  keys_answer : List ServiceKeyView → Answer V
  key_answer : ServiceKeyView → Answer V
  created_key : CreatedServiceKey → Answer V
  hooks_answer : List (Webhook V) → Answer V
  hook_answer : Webhook V → Answer V
  registered : Registered V → Answer V
  outcome_answer : Outcome V → Answer V
  secret_answer : String → Answer V
  replayed_answer : ℕ → Answer V
  operations_answer : OperationalHealth → Answer V
  health_answer : Health → Answer V
  rules_answer : FlxRuleSet → Answer V
  rules_result : FlxRulesResult → Answer V
  rules_test : FlxRulesTestResult → Answer V
  history_answer : List Revision → Answer V
  schema_answer : Schema → Answer V
  schema_result : SchemaResult → Answer V
  object_answer : Object V → Answer V
  write_answer : WriteResult V → Answer V
  query_answer : QueryResult V → Answer V
  batch_answer : BatchResult V → Answer V

-- A page that other code serves: the console, the documentation, or a redirection.
pub data Page : Type 0 where
  redirect : String → Page
  console docs openapi unknown : Page

pub data Payload (V : Type 0) : Type 0 where
  json : Answer V → Payload V
  page : Page → Payload V
  no_content : Payload V

pub record Response (V : Type 0) : Type 0 where
  pub status : ℕ
  pub headers : List (String × String)
  pub payload : Payload V

-- The handlers of the server, by the patterns they are registered under. What has no pattern is
-- `unknown_route` below `/v1/`, and `no_route` elsewhere.
pub data Route : Type 0 where
  root_page control_page console_page openapi_page docs_page live_route ready_route : Route
  data_route hooks_route hook_route tenants_route tenant_route keys_route key_route : Route
  operations_route unknown_route no_route : Route

-- What the server uses: its services, encoding/json, the routing of net/http by method and path, the
-- JSON value of a text, and the decimal number of a text as `strconv.ParseUint` reads it.
pub record ApiEnv (V C : Type 0) : Type 0 where
  pub auth : AuthEnv V
  pub hooks : HookEnv V
  pub rules : RulesEnv V
  pub core : Core V C
  pub objects : ObjectPlane V C
  pub bodies : Bodies V
  pub mux : String → String → Route
  pub string_value : String → V
  pub parse_uint : String → Option ℕ
