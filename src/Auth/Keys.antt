-- ===== src/Auth/Keys.antt =====
-- The operations of `Manager` on API keys: internal/auth/manager.go.
pub mod Laws
pub mod Places
use barq_control_plane.Base.{
  ℕ, zero, suc, String, ◌==◌, is_blank, if◌then◌else◌, Bool, true, false, not, ◌&&◌, ◌||◌, leb, ltb,
  len, Option, none, some, List, [], ◌∷◌, Error, Result, ok, err, ◌>>=◌, ◌>>◌, ensure, plain, coded,
  wrap, ◌<>◌, is_code, conflict, not_found,
}
use barq_control_plane.Base.Lists.{contains}
use barq_control_plane.Base.Order.{str_leb}
use barq_control_plane.Base.Sorting.{sort_by}
use barq_control_plane.Base.Text.{trim_space}
use barq_control_plane.Control.Types.{Record, Mutation, decode, encode}
use barq_control_plane.Control.Checks.{invalid, is_some}
use barq_control_plane.Control.Store.{Store, get, list, apply, put_of}
use barq_control_plane.Auth.Types.{
  Time, Tenant, ServiceKey, ServiceKeyView, CreatedServiceKey, CreateServiceKeyInput,
  UpdateServiceKeyInput, AuthEnv, Draw, Write, run_write, answer_with, forget_answer, or_nil,
  api_key_collection,
}
use barq_control_plane.Auth.Patterns.{valid_identity}
use barq_control_plane.Auth.Normalize.{normalize_actions}
use barq_control_plane.Auth.Tenants.{read_tenant, new_flag}

-- keyView
unfoldable pub key_view : ServiceKey → ServiceKeyView
key_view key = record {
  id = key.id;
  label = key.label;
  tenant = key.tenant;
  database = key.database;
  actions = key.actions;
  enabled = key.enabled;
  created_at = key.created_at;
  updated_at = key.updated_at;
}

-- isRootKey
unfoldable pub is_root_key : ServiceKey → Bool
is_root_key key =
    key.enabled && key.tenant == "*" && key.database == "*" && contains key.actions "*"

abbrev pub label_error : Error
label_error = invalid "key label must be 1 to 120 characters"

abbrev pub key_id_leb : ServiceKey → ServiceKey → Bool
key_id_leb a b = str_leb a.id b.id

-- The loop of `ensureAnotherRoot`.
unfoldable pub has_other_root : String → List ServiceKey → Bool
has_other_root id [] = false
has_other_root id (key ∷ keys) =
    if not (key.id == id) && is_root_key key then true else has_other_root id keys

module _ {V : Type 0} (env : AuthEnv V) where
  unfoldable pub decode_keys : List (Record V) → Result (List ServiceKey)
  decode_keys [] = ok []
  decode_keys (r ∷ rs) =
      let later = decode_keys rs in
      elim (decode env.keys r) [
        | err e ↦ err (wrap "read API key: " e)
        | ok key ↦ later >>= λ keys. ok (key ∷ keys)
      ]

  -- ListKeys
  unfoldable pub list_keys : Store V → Result (List ServiceKey)
  list_keys s = do
    records ← list s api_key_collection ""
    keys ← decode_keys records
    ok (sort_by key_id_leb keys)

  -- The loop of `getKey`: the first record of the collection whose key has the id.
  unfoldable pub scan_keys : String → List (Record V) → Result (ServiceKey × Record V)
  scan_keys id [] = err (coded not_found "API key not found")
  scan_keys id (r ∷ rs) =
      let later = scan_keys id rs in
      elim (decode env.keys r) [
        | err e ↦ err e
        | ok key ↦ if key.id == id then ok (key, r) else later
      ]

  -- getKey
  unfoldable pub read_key : Store V → String → Result (ServiceKey × Record V)
  read_key s id = do records ← list s api_key_collection ""; scan_keys id records

  -- GetKey
  unfoldable pub get_key : Store V → String → Result ServiceKey
  get_key s id = do found ← read_key s id; ok found.0

  -- validateScope
  unfoldable pub validate_scope : Store V → String → String → Result (Unit {0})
  validate_scope s tenant_id database =
      if tenant_id == "*"
      then ensure (database == "*") (invalid "a global key must use * for both tenant and database")
      else do
        ensure (valid_identity tenant_id && (database == "*" || valid_identity database))
            (invalid "invalid key tenant or database")
        found ← read_tenant env s tenant_id
        ensure found.0.enabled (invalid "cannot create or enable a key for a disabled tenant")
        ensure (database == "*" || contains found.0.databases database)
            (invalid "database is not registered for this tenant")

  -- validateKeyInput, which also trims and normalises its argument
  unfoldable pub validate_key_input : Store V → CreateServiceKeyInput → Result CreateServiceKeyInput
  validate_key_input s input = do
    let label = trim_space input.label
    let tenant = trim_space input.tenant
    let database = trim_space input.database
    ensure (not (is_blank label || ltb 120 (len label))) label_error
    actions ← normalize_actions input.actions
    validate_scope s tenant database
    ok (record { label = label; tenant = tenant; database = database; actions = actions })

  abbrev pub key_of : Time → CreateServiceKeyInput → Draw → ServiceKey
  key_of now input d = record {
    id = "key_" <> d.id;
    label = input.label;
    digest = env.digest ("barq_sk_" <> d.secret);
    tenant = input.tenant;
    database = input.database;
    actions = input.actions;
    enabled = true;
    created_at = now;
    updated_at = now;
  }

  -- The attempts of `newKey`, `left` of them still to come.
  unfoldable pub new_key_from :
      ℕ → ℕ → Store V → CreateServiceKeyInput → Time → Result (ServiceKey × String)
  new_key_from zero attempt s input now = err (plain "could not generate a unique API key")
  new_key_from (suc left) attempt s input now =
      let retry = new_key_from left (suc attempt) s input now in
      env.draw attempt >>= λ d.
      let key = key_of now input d in
      elim (get s api_key_collection key.digest) [
        | ok r ↦ retry
        | err e ↦ if is_code e not_found then ok (key, "barq_sk_" <> d.secret) else err e
      ]

  -- newKey
  unfoldable pub new_key : Store V → CreateServiceKeyInput → Time → Result (ServiceKey × String)
  new_key s input now = new_key_from 5 0 s input now

  unfoldable pub ensure_another_root : Store V → String → Result (Unit {0})
  ensure_another_root s id = do
    keys ← list_keys s
    ensure (has_other_root id keys) (coded conflict "cannot revoke the last global admin key")
