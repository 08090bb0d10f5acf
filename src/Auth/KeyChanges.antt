-- ===== src/Auth/KeyChanges.antt =====
-- Creating, changing, revoking and rotating API keys: internal/auth/manager.go.
pub mod Create
pub mod Histories
pub mod Invariant
pub mod Others
pub mod Laws
pub mod Root
pub mod Rotate
pub mod Secrets
use barq_control_plane.Base.{
  ℕ, zero, suc, String, ◌==◌, is_blank, if◌then◌else◌, Bool, true, false, not, ◌&&◌, ◌||◌, leb, ltb,
  len, Option, none, some, List, [], ◌∷◌, Error, Result, ok, err, ◌>>=◌, ◌>>◌, ensure, plain, coded,
  wrap, ◌<>◌, is_code, conflict, not_found,
}
use barq_control_plane.Base.Lists.{contains}
use barq_control_plane.Base.Order.{str_leb}
use barq_control_plane.Base.Sorting.{sort_by}
use barq_control_plane.Base.Text.{trim_space}
use barq_control_plane.Control.Types.{Record, Mutation, decode, encode}
use barq_control_plane.Control.Checks.{invalid, is_some}
use barq_control_plane.Control.Store.{Store, get, list, apply, put_of}
use barq_control_plane.Auth.Types.{
  Time, Tenant, ServiceKey, ServiceKeyView, CreatedServiceKey, CreateServiceKeyInput,
  UpdateServiceKeyInput, AuthEnv, Draw, Write, run_write, answer_with, forget_answer, or_nil,
  api_key_collection,
}
use barq_control_plane.Auth.Patterns.{valid_identity}
use barq_control_plane.Auth.Normalize.{normalize_actions}
use barq_control_plane.Auth.Tenants.{read_tenant, new_flag}
use barq_control_plane.Auth.Keys.{
  key_view, is_root_key, read_key, validate_scope, validate_key_input, new_key, ensure_another_root,
}

unfoldable pub new_label : Option String → String → Result String
new_label none old = ok old
new_label (some raw) old = do
  let label = trim_space raw
  ensure (not (ltb 120 (len label))) (invalid "key label must be at most 120 characters")
  ok label

unfoldable pub new_actions : Option (List String) → List String → Result (List String)
new_actions none old = ok old
new_actions (some input) old = normalize_actions input

abbrev pub revoking : UpdateServiceKeyInput
revoking = record { label = none; actions = none; enabled = some false }

-- The two writes of `RotateKey`, and its answer.
pub record Rotation (V : Type 0) : Type 0 where
  pub retired : Mutation V
  pub added : Mutation V
  pub created : CreatedServiceKey

module _ {V : Type 0} (env : AuthEnv V) where
  unfoldable pub plan_create_key :
      Time → CreateServiceKeyInput → Store V → Result (Write V CreatedServiceKey)
  plan_create_key now raw s = do
    input ← validate_key_input env s raw
    made ← new_key env s input now
    ok (record {
      collection = api_key_collection;
      key = made.0.digest;
      value = or_nil env.nil (encode env.keys made.0);
      expected = some 0;
      answer = record { key = key_view made.0; secret = made.1 };
    })

  -- CreateKey
  unfoldable pub create_key :
      Time → CreateServiceKeyInput → Store V → Result CreatedServiceKey × Store V
  create_key now input s = run_write env.valid s (plan_create_key now input s)

  -- The scope is checked again only if the update enables the key.
  unfoldable pub check_enabling : Store V → Option Bool → ServiceKey → Result (Unit {0})
  check_enabling s (some true) key = validate_scope env s key.tenant key.database
  check_enabling s _ key = ok tt

  unfoldable pub check_root : Store V → String → ServiceKey → ServiceKey → Result (Unit {0})
  check_root s id old key =
      if is_root_key old && not (is_root_key key) then ensure_another_root env s id else ok tt

  unfoldable pub plan_update_key :
      Time → String → UpdateServiceKeyInput → Store V → Result (Write V ServiceKeyView)
  plan_update_key now id input s = do
    ensure (is_some input.label || is_some input.actions || is_some input.enabled)
        (invalid "API key update has no changes")
    found ← read_key env s id
    let old = found.0
    label ← new_label input.label old.label
    actions ← new_actions input.actions old.actions
    check_enabling s input.enabled old
    let key : ServiceKey = record old {
      label = label;
      actions = actions;
      enabled = new_flag input.enabled old.enabled;
    }
    check_root s id old key
    let stamped : ServiceKey = record key { updated_at = now }
    ok (record {
      collection = api_key_collection;
      key = stamped.digest;
      value = or_nil env.nil (encode env.keys stamped);
      expected = some found.1.version;
      answer = key_view stamped;
    })

  -- UpdateKey
  unfoldable pub update_key :
      Time → String → UpdateServiceKeyInput → Store V → Result ServiceKeyView × Store V
  update_key now id input s = run_write env.valid s (plan_update_key now id input s)

  -- RevokeKey
  unfoldable pub revoke_key : Time → String → Store V → Result (Unit {0}) × Store V
  revoke_key now id s = forget_answer (update_key now id revoking s)

  unfoldable pub plan_rotate_key : Time → String → Store V → Result (Rotation V)
  plan_rotate_key now id s = do
    found ← read_key env s id
    let old = found.0
    ensure old.enabled (coded conflict "only an enabled API key can be rotated")
    validate_scope env s old.tenant old.database
    let input : CreateServiceKeyInput = record {
      label = old.label;
      tenant = old.tenant;
      database = old.database;
      actions = old.actions;
    }
    made ← new_key env s input now
    let retired : ServiceKey = record old { enabled = false; updated_at = made.0.created_at }
    ok (record {
      retired =
          put_of api_key_collection old.digest (or_nil env.nil (encode env.keys retired))
            (some found.1.version);
      added =
          put_of api_key_collection made.0.digest (or_nil env.nil (encode env.keys made.0))
            (some 0);
      created = record { key = key_view made.0; secret = made.1 };
    })

  -- RotateKey
  unfoldable pub run_rotation : Store V → Result (Rotation V) → Result CreatedServiceKey × Store V
  run_rotation s (err e) = (err e, s)
  run_rotation s (ok r) = answer_with r.created (apply env.valid s (r.retired ∷ r.added ∷ []))

  unfoldable pub rotate_key : Time → String → Store V → Result CreatedServiceKey × Store V
  rotate_key now id s = run_rotation s (plan_rotate_key now id s)
