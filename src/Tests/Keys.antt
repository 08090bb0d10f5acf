-- ===== src/Tests/Keys.antt =====
-- A small control database with an administrator's key, and what the theorems on keys, tenants and
-- transactions say of it. Its JSON values are the values themselves.
use barq_control_plane.Base.{
  ℕ, zero, String, ◌≡◌, ◌≢◌, ◌↔◌, refl, sym, ap, ◌<>◌, ◌==◌, eq_iff, eq_refl, Bool, true, false,
  Option, none, some, List, [], ◌∷◌, Error, Result, ok, err, coded, plain, internal, arith, map,
  ◌⊎◌, inl, inr, ◌≤◌, ◌<◌,
}
use barq_control_plane.Base.Lists.{length, contains}
use barq_control_plane.Base.Results.{ok-injective}
use barq_control_plane.Base.Text.{starts_with, trim_prefix, trim_space}
use barq_control_plane.Control.Types.{Record, Mutation, Codec, record_id}
use barq_control_plane.Control.Types.Laws.{record_id-injective}
use barq_control_plane.Control.Store.{Store, find_record, put_of, delete_of, apply}
use barq_control_plane.Control.Store.Outcome.{apply-Outcome, Outcome}
use barq_control_plane.Auth.Types.{
  Tenant, ServiceKey, CreateServiceKeyInput, CreatedServiceKey, AuthEnv, IsLawful,
  api_key_collection,
}
use barq_control_plane.Auth.Tenants.{Scope}
use barq_control_plane.Auth.Patterns.{valid_identity}
use barq_control_plane.Auth.Normalize.{normalize_databases, normalize_actions, action_test}
use barq_control_plane.Auth.Normalize.Laws.{
  normalize_databases-IsNormal, normalize_actions-IsNormal, IsNormal,
}
use barq_control_plane.Auth.Keys.{read_key}
use barq_control_plane.Auth.Keys.Laws.{IsKeyTable, HasRoot}
use barq_control_plane.Auth.KeyChanges.{create_key, rotate_key, revoke_key}
use barq_control_plane.Auth.KeyChanges.Create.{StoredKey, create_key-ok}
use barq_control_plane.Auth.KeyChanges.Rotate.{StoredRotation, rotate_key-ok}
use barq_control_plane.Auth.KeyChanges.Secrets.{revoke_key_refused}
use barq_control_plane.Auth.KeyChanges.Histories.{creating, rotating, after_all, after_all-HasRoot}
use barq_control_plane.Auth.Bootstrap.{BootstrapOptions, bootstrap, parse_bootstrap_key}
use barq_control_plane.Auth.Bootstrap.Laws.{
  KeysKept, IsBootstrapKey, bootstrap-KeysKept, parse_bootstrap_key-ok,
}
use barq_control_plane.Auth.Access.{find_by_digest, authenticate, authorize}
use barq_control_plane.Auth.Access.Laws.{
  find_by_digest_iff, authenticate-IsAdmitted, authorize_iff, IsAdmitted,
}

pub data Json : Type 0 where
  key_json : ServiceKey → Json
  tenant_json : Tenant → Json
  nothing : Json

abbrev unreadable : {A : Type 0} → Result A
unreadable = err (plain "unexpected JSON")

abbrev key_codec : Codec Json ServiceKey
key_codec = record {
  marshal = λ k. ok (key_json k);
  unmarshal = λ v. elim v [ key_json k ↦ ok k | tenant_json t ↦ unreadable | nothing ↦ unreadable ];
}

abbrev tenant_codec : Codec Json Tenant
tenant_codec = record {
  marshal = λ t. ok (tenant_json t);
  unmarshal = λ v. elim v [ key_json k ↦ unreadable | tenant_json t ↦ ok t | nothing ↦ unreadable ];
}

abbrev is_json : Json → Bool
is_json (key_json k) = true
is_json (tenant_json t) = true
is_json nothing = false

abbrev pub env : AuthEnv Json
env = record {
  valid = is_json;
  nil = nothing;
  tenants = tenant_codec;
  keys = key_codec;
  digest = λ s. "sha " <> s;
  draw = λ n. ok (record { secret = "new"; id = "2" });
}

pub law : IsLawful env
law = record {
  tenants_law = record {
    unmarshal-marshal = λ t v e. ap tenant_codec.unmarshal (sym (ok-injective e));
    valid-marshal = λ t v e. ap is_json (sym (ok-injective e));
  };
  keys_law = record {
    unmarshal-marshal = λ k v e. ap key_codec.unmarshal (sym (ok-injective e));
    valid-marshal = λ k v e. ap is_json (sym (ok-injective e));
  };
  nil_invalid = refl;
}

abbrev pub root_key : ServiceKey
root_key = record {
  id = "key_1";
  label = "root";
  digest = "sha barq_sk_1";
  tenant = "*";
  database = "*";
  actions = "*" ∷ [];
  enabled = true;
  created_at = 1;
  updated_at = 1;
}

-- A key of one database, which the administrator may revoke.
abbrev pub reader_key : ServiceKey
reader_key = record root_key {
  id = "key_9";
  label = "reader";
  digest = "sha barq_sk_9";
  tenant = "acme";
  database = "app";
  actions = "objects.read" ∷ [];
}

abbrev pub place_of : ServiceKey → Record Json
place_of k = record {
  collection = api_key_collection;
  key = k.digest;
  value = key_json k;
  version = 1;
}

abbrev pub start : Store Json
start = record { records = place_of root_key ∷ place_of reader_key ∷ []; fault = λ r. none }

abbrev raw : CreateServiceKeyInput
raw = record { label = " ops "; tenant = "*"; database = "*"; actions = "*" ∷ [] }

start-IsKeyTable : IsKeyTable env start
unfolding find_record
start-IsKeyTable = record {
  table = (refl, (refl, tt));
  by_digest = λ r k found reads. ground (arith, found, reads);
}

after_all-HasRoot_example :
    IsKeyTable env (after_all env (creating 5 raw ∷ rotating 6 "key_1" ∷ []) start)
    × HasRoot env (after_all env (creating 5 raw ∷ rotating 6 "key_1" ∷ []) start)
unfolding find_record barq_control_plane.Auth.Keys.is_root_key contains
after_all-HasRoot_example =
    after_all-HasRoot env (creating 5 raw ∷ rotating 6 "key_1" ∷ []) start law start-IsKeyTable
      (place_of root_key, root_key, refl, refl, refl)

abbrev created_answer : CreatedServiceKey
created_answer = record {
  key = record {
    id = "key_2";
    label = "ops";
    tenant = "*";
    database = "*";
    actions = "*" ∷ [];
    enabled = true;
    created_at = 5;
    updated_at = 5;
  };
  secret = "barq_sk_new";
}

create_key-ok_example : StoredKey env 5 raw created_answer start (create_key env 5 raw start).1
unfolding create_key barq_control_plane.Auth.Keys.key_view
    barq_control_plane.Auth.KeyChanges.plan_create_key
    barq_control_plane.Auth.Keys.validate_key_input trim_space normalize_actions
    barq_control_plane.Auth.Keys.validate_scope barq_control_plane.Auth.Keys.new_key
    barq_control_plane.Auth.Keys.new_key_from barq_control_plane.Control.Store.get find_record
    barq_control_plane.Control.Store.put apply barq_control_plane.Control.Store.plan
    barq_control_plane.Control.Store.put_results
create_key-ok_example = create_key-ok env law 5 raw start refl

rotate_key-ok_example : StoredRotation env 6 "key_1" start (rotate_key env 6 "key_1" start).1
unfolding rotate_key barq_control_plane.Auth.KeyChanges.run_rotation
    barq_control_plane.Auth.KeyChanges.plan_rotate_key read_key
    barq_control_plane.Control.Store.list barq_control_plane.Auth.Keys.scan_keys starts_with
    barq_control_plane.Auth.Keys.validate_scope barq_control_plane.Auth.Keys.new_key
    barq_control_plane.Auth.Keys.new_key_from barq_control_plane.Control.Store.get find_record apply
    barq_control_plane.Control.Store.plan contains record_id barq_control_plane.Base.Decimal.decimal
rotate_key-ok_example = rotate_key-ok env law 6 "key_1" start refl

revoke_key_refused_example :
    find_by_digest env (revoke_key env 7 "key_9" start).1 "sha barq_sk_9" ≢ ok reader_key
unfolding revoke_key read_key barq_control_plane.Control.Store.list
    barq_control_plane.Auth.Keys.scan_keys starts_with barq_control_plane.Auth.KeyChanges.update_key
    barq_control_plane.Auth.KeyChanges.plan_update_key barq_control_plane.Auth.KeyChanges.new_label
    barq_control_plane.Auth.KeyChanges.new_actions barq_control_plane.Auth.KeyChanges.check_enabling
    barq_control_plane.Auth.KeyChanges.check_root barq_control_plane.Auth.Keys.is_root_key
    barq_control_plane.Control.Store.put apply barq_control_plane.Control.Store.plan contains
    barq_control_plane.Control.Store.put_results
revoke_key_refused_example =
    revoke_key_refused env 7 "key_9" start reader_key (place_of reader_key) law refl refl reader_key

find_by_digest_iff_example :
    (find_by_digest env start "sha barq_sk_1" ≡ ok root_key)
    ↔ IsAdmitted env start "sha barq_sk_1" root_key
find_by_digest_iff_example = find_by_digest_iff env start "sha barq_sk_1" root_key

authenticate-IsAdmitted_example :
    (starts_with "Bearer barq_sk_1" "Bearer " ≡ true)
    × (root_key.digest ≡ env.digest (trim_space (trim_prefix "Bearer barq_sk_1" "Bearer ")))
    × IsAdmitted env start
        (env.digest (trim_space (trim_prefix "Bearer barq_sk_1" "Bearer ")))
        root_key
unfolding authenticate starts_with find_by_digest barq_control_plane.Control.Store.get trim_space
    trim_prefix find_record
authenticate-IsAdmitted_example = authenticate-IsAdmitted env start "Bearer barq_sk_1" refl

abbrev app : Scope
app = record { tenant = "acme"; database = "app" }

authorize_iff_example : (authorize (some reader_key) app "objects.read" ≡ ok tt) ↔ (
    ((reader_key.tenant ≡ "*") ⊎ (reader_key.tenant ≡ app.tenant))
    × ((reader_key.database ≡ "*") ⊎ (reader_key.database ≡ app.database))
    × ((contains reader_key.actions "*" ≡ true)
        ⊎ (contains reader_key.actions "objects.read" ≡ true)))
authorize_iff_example = authorize_iff reader_key app "objects.read"

abbrev databases : List String
databases = " b " ∷ "a" ∷ "b" ∷ []

abbrev every_action : List String
every_action = "*" ∷ []

normalize_databases-IsNormal_example :
    IsNormal valid_identity databases ("a" ∷ "b" ∷ [])
    × ((1 ≤ length databases) × (length databases ≤ 50))
unfolding normalize_databases
normalize_databases-IsNormal_example = normalize_databases-IsNormal databases refl

normalize_actions-IsNormal_example :
    IsNormal action_test every_action every_action
    × ((1 ≤ length every_action) × (length every_action ≤ 20))
unfolding normalize_actions
normalize_actions-IsNormal_example = normalize_actions-IsNormal every_action refl

abbrev note : Json
note = tenant_json (record {
  id = "acme";
  name = "Acme";
  databases = "app" ∷ [];
  enabled = true;
  created_at = 1;
  updated_at = 1;
})

-- A new record, and the deletion of the key of a reader.
abbrev change : List (Mutation Json)
change =
    put_of "notes" "n1" note (some 0)
    ∷ delete_of note api_key_collection reader_key.digest none
    ∷ []

apply-Outcome_example :
    Outcome is_json start change
      (record { collection = "notes"; key = "n1"; value = note; version = 1 } ∷ [])
      (apply is_json start change).1
unfolding apply barq_control_plane.Control.Store.plan contains
    barq_control_plane.Control.Store.put_results find_record record_id
    barq_control_plane.Base.Decimal.decimal
apply-Outcome_example = apply-Outcome is_json start change refl

abbrev notes : String
notes = "notes"

abbrev note_key : String
note_key = "1:b"

record_id-injective_example : (notes ≡ notes) × (note_key ≡ note_key)
record_id-injective_example = record_id-injective notes notes note_key note_key refl

abbrev bootstrap_options : BootstrapOptions
bootstrap_options = record {
  api_keys = "k1:acme:app:*";
  dev_mode = false;
  default_tenant = "acme";
  default_database = "app";
}

bootstrap-KeysKept_example :
    KeysKept start (bootstrap env (λ sets. sets) (λ t. 5) 5 bootstrap_options start).1
bootstrap-KeysKept_example =
    bootstrap-KeysKept env (λ sets. sets) (λ t. 5) 5 bootstrap_options start

abbrev entry_key : ServiceKey
entry_key = record reader_key {
  id = "";
  label = "";
  digest = "";
  actions = "*" ∷ [];
  created_at = 5;
  updated_at = 5;
}

parse_bootstrap_key-ok_example : IsBootstrapKey entry_key
unfolding parse_bootstrap_key valid_identity
parse_bootstrap_key-ok_example =
    parse_bootstrap_key-ok "k1:acme:app:*" 5 {p = ("k1", entry_key)} refl
