-- ===== src/Tests/Server.antt =====
-- Requests to a small server, and what the theorems on the HTTP API say of them. Its control database
-- holds keys alone, and its Core fails.
use barq_control_plane.Base.{
  ℕ, String, ◌≡◌, ◌↔◌, refl, ◌≤◌, true, false, Option, none, some, List, [], ◌∷◌, Error, Result, ok,
  err, coded, plain, conflict, ap, arith, ◌≢◌, sym,
}
use barq_control_plane.Control.Types.{Record, Codec}
use barq_control_plane.Auth.Types.{Tenant, ServiceKey, tenant_collection, api_key_collection}
use barq_control_plane.Auth.Access.{authenticate}
use barq_control_plane.DataPlane.Objects.{ObjectPlane}
use barq_control_plane.Webhooks.Types.{HookEnv}
use barq_control_plane.SyncRules.Types.{Core, World, RulesEnv}
use barq_control_plane.Api.Types.{HttpRequest, Bodies, undecodable, tenant_route, key_route, ApiEnv}
use barq_control_plane.Api.Keys.{authorize_key_scope}
use barq_control_plane.Api.Keys.Laws.{MayManage, authorize_key_scope_iff}
use barq_control_plane.Api.Routes.{handle}
use barq_control_plane.Api.Safety.Reader.{IsReader, handle_reader}
use barq_control_plane.Api.Safety.Getting.{handle_get_lem}
use barq_control_plane.Api.Safety.Isolation.{handle_keeps_others}
use barq_control_plane.Api.Safety.Roots.{IsGoverned, handle_all, handle_all-IsGoverned}
use barq_control_plane.Auth.Keys.Laws.{IsKeyTable}
use barq_control_plane.Control.Store.{find_record}
use barq_control_plane.Control.Store.Spared.{Untouched}
use barq_control_plane.SyncRules.Finish.Frame.{IsElsewhere}
use barq_control_plane.Tests.Keys.{
  Json, tenant_json, nothing, env, root_key, reader_key, start, place_of, law,
}

abbrev fails : {A : Type 0} → Result A
fails = err (plain "down")

abbrev no_codec : {A : Type 0} → Codec Json A
no_codec = record { marshal = λ a. fails; unmarshal = λ v. fails }

abbrev hook_env : HookEnv Json
hook_env = record {
  valid = λ v. true;
  nil = nothing;
  hooks = no_codec;
  revisions = no_codec;
  materializations = no_codec;
  deliveries = no_codec;
  cursors = no_codec;
  allow_private_urls = false;
  parse_url = λ t. none;
  equal_fold = λ a b. false;
  parse_ip = λ t. none;
  random_hex = fails;
  random_secret = fails;
  hmac_hex = λ secret text payload. "";
  validate_source = λ source limits. fails;
  execute = λ source input limits. fails;
}

abbrev rules_env : RulesEnv Json
rules_env = record {
  valid = λ v. true;
  nil = nothing;
  revisions = no_codec;
  heads = no_codec;
  pendings = no_codec;
  rules_text = λ rules. "";
  pending_text = λ pending. "";
}

abbrev core : Core Json ℕ
core = record {
  read_rules = λ c request. fails;
  plan_rules = λ c request. fails;
  apply_rules = λ c request. (fails, c);
  test_rules = λ c request. fails;
  read_schema = λ c request. fails;
}

-- Core counts the writes that it refused.
abbrev objects : ObjectPlane Json ℕ
objects = record {
  health = λ c. fails;
  read_object = λ c request. fails;
  write_object = λ c request. (fails, 1);
  query_objects = λ c request. fails;
  execute_batch = λ c request. (fails, 1);
  plan_schema = λ c request. fails;
  apply_schema = λ c request. (fails, 1);
}

abbrev bodies : Bodies Json
bodies = record {
  create_tenant = undecodable;
  update_tenant = undecodable;
  create_key = undecodable;
  update_key = undecodable;
  registration = undecodable;
  event = undecodable;
  rule = undecodable;
  restore = undecodable;
  rule_test = undecodable;
  create = undecodable;
  patch = undecodable;
  query = undecodable;
  batch = undecodable;
  schema = undecodable;
}

abbrev server : ApiEnv Json ℕ
server = record {
  auth = env;
  hooks = hook_env;
  rules = rules_env;
  core = core;
  objects = objects;
  bodies = bodies;
  mux = λ method path. tenant_route;
  string_value = λ t. nothing;
  parse_uint = λ t. none;
}

abbrev acme : Tenant
acme = record {
  id = "acme";
  name = "Acme";
  databases = "app" ∷ [];
  enabled = true;
  created_at = 1;
  updated_at = 1;
}

abbrev acme_place : Record Json
acme_place = record {
  collection = tenant_collection;
  key = "acme";
  value = tenant_json acme;
  version = 1;
}

abbrev before : World Json ℕ
before = record { store = record start { records = acme_place ∷ start.records }; core = 0 }

-- A tenant is disabled, by the key of one database.
abbrev deleting : HttpRequest
deleting = record {
  method = "DELETE";
  path = "/v1/admin/tenants/acme";
  body = "";
  authorization = "Bearer barq_sk_9";
  x_request_id = "r1";
  remote_addr = "127.0.0.1:80";
  idempotency_key = "";
  if_match = "";
  clock = λ n. 5;
}

abbrev reading : HttpRequest
reading = record deleting { method = "GET"; authorization = "Bearer barq_sk_1" }

reader_key-IsReader : IsReader reader_key
unfolding barq_control_plane.Auth.Access.allows_action
reader_key-IsReader = record {
  no_write = refl;
  no_schema = refl;
  no_rules = refl;
  no_hooks = refl;
  no_tenants = refl;
  no_keys = refl;
}

only-IsReader :
    (key : ServiceKey) → ◌≡◌ {A = Option ServiceKey} (some reader_key) (some key) → IsReader key
only-IsReader key e = let same : reader_key ≡ key = cc e in rw (← same) reader_key-IsReader

handle_reader_example : (handle server deleting before).1 ≡ before
unfolding authenticate barq_control_plane.Base.Text.starts_with
    barq_control_plane.Auth.Access.find_by_digest barq_control_plane.Control.Store.get
    barq_control_plane.Base.Text.trim_space barq_control_plane.Base.Text.trim_prefix
    barq_control_plane.Control.Store.find_record barq_control_plane.Auth.Tenants.read_tenant
    barq_control_plane.Base.Lists.contains
handle_reader_example = handle_reader server deleting before λ key e. only-IsReader key e

no_tenants : IsElsewhere tenant_collection
no_tenants = record { no_revision = refl; no_head = refl; no_pending = refl }

handle_get_lem_example :
    ((handle server reading before).1.core ≡ 0)
    × Untouched tenant_collection before.store (handle server reading before).1.store
handle_get_lem_example = handle_get_lem server reading before tenant_collection refl no_tenants

-- A key of the tenant, which revokes another one of it.
abbrev admin_key : ServiceKey
admin_key = record reader_key {
  id = "key_5";
  digest = "sha barq_sk_5";
  database = "*";
  actions = "keys:admin" ∷ [];
}

abbrev full : World Json ℕ
full = record {
  store = record start { records = place_of admin_key ∷ before.store.records };
  core = 0;
}

abbrev keys_server : ApiEnv Json ℕ
keys_server = record server { mux = λ method path. key_route }

abbrev revoking : HttpRequest
revoking = record deleting { path = "/v1/admin/api-keys/key_9"; authorization = "Bearer barq_sk_5" }

full-IsKeyTable : IsKeyTable env full.store
unfolding find_record
full-IsKeyTable = record {
  table = (refl, (refl, (refl, (refl, tt))));
  by_digest = λ r k found reads. ground (arith, found, reads);
}

-- The request revokes.
revoking_answer : (handle keys_server revoking full).0.status ≡ 204
unfolding handle barq_control_plane.Auth.Access.find_by_digest barq_control_plane.Control.Store.get
    find_record barq_control_plane.Auth.Keys.read_key barq_control_plane.Control.Store.list
    barq_control_plane.Auth.Keys.scan_keys barq_control_plane.Auth.KeyChanges.plan_update_key
    barq_control_plane.Auth.KeyChanges.new_label barq_control_plane.Auth.KeyChanges.new_actions
    barq_control_plane.Auth.KeyChanges.check_enabling barq_control_plane.Auth.KeyChanges.check_root
    barq_control_plane.Auth.Keys.is_root_key barq_control_plane.Control.Store.put
    barq_control_plane.Control.Store.apply barq_control_plane.Control.Store.plan
    barq_control_plane.Control.Store.put_results
revoking_answer = refl

only_admin :
    (key : ServiceKey)
    → ◌≡◌ {A = Option ServiceKey} (some admin_key) (some key)
    → key.tenant ≡ "acme"
only_admin key e = let same : admin_key ≡ key = cc e in rw (← same) refl

not_every : ◌≢◌ {A = String} "acme" "*"
not_every e = cc e

handle_keeps_others_example :
    find_record api_key_collection "sha barq_sk_1"
      (handle keys_server revoking full).1.store.records
    ≡ some (place_of root_key)
unfolding authenticate barq_control_plane.Base.Text.starts_with
    barq_control_plane.Auth.Access.find_by_digest barq_control_plane.Control.Store.get
    barq_control_plane.Base.Text.trim_space barq_control_plane.Base.Text.trim_prefix find_record
    barq_control_plane.Auth.Tenants.read_tenant
handle_keeps_others_example =
    handle_keeps_others keys_server revoking full "acme" law full-IsKeyTable not_every
      (λ key e. only_admin key e) (place_of root_key) root_key refl refl (λ e. not_every (sym e))

handle_all-IsGoverned_example :
    IsGoverned env (handle_all keys_server (revoking ∷ deleting ∷ []) full).store
unfolding find_record barq_control_plane.Auth.Keys.is_root_key
    barq_control_plane.Base.Lists.contains
handle_all-IsGoverned_example =
    handle_all-IsGoverned keys_server (revoking ∷ deleting ∷ []) full law
      (record { keys = full-IsKeyTable; root = (place_of root_key, root_key, refl, refl, refl) })

authorize_key_scope_iff_example :
    (authorize_key_scope (some root_key) "acme" "*" ≡ ok tt) ↔ MayManage root_key "acme" "*"
authorize_key_scope_iff_example = authorize_key_scope_iff root_key "acme" "*"
