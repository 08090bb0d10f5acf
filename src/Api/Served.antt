-- ===== src/Api/Served.antt =====
-- What holds between the states before and after a request, if it holds for each operation that the
-- handlers may run for it: the proof over all handlers that several properties share.
pub mod Hooks
pub mod Keys
pub mod Data
pub mod Managed
pub mod Routes
use barq_control_plane.Base.{
  ℕ, String, ◌≡◌, refl, ◌==◌, if◌then◌else◌, Bool, true, false, Result, ok, err,
}
use barq_control_plane.Control.Store.{Store}
use barq_control_plane.Auth.Types.{
  ServiceKey, CreateTenantInput, UpdateTenantInput, CreateServiceKeyInput, UpdateServiceKeyInput,
}
use barq_control_plane.Auth.Tenants.{Scope, create_tenant, update_tenant, disable_tenant}
use barq_control_plane.Auth.Keys.{get_key}
use barq_control_plane.Auth.KeyChanges.{create_key, update_key, revoke_key, rotate_key}
use barq_control_plane.Auth.Access.{Principal, authorize, authorize_global}
use barq_control_plane.DataPlane.Objects.{WriteRequest, BatchRequest, SchemaRequest}
use barq_control_plane.Webhooks.Types.{Webhook, Registration}
use barq_control_plane.Webhooks.Service.{get_hook, register, update, disable, rotate_secret}
use barq_control_plane.Webhooks.Queue.{replay}
use barq_control_plane.SyncRules.Types.{ApplyInput, World}
use barq_control_plane.SyncRules.Service.{current_rules, apply_rules, restore}
use barq_control_plane.Api.Types.{HttpRequest, Response, ApiEnv}
use barq_control_plane.Api.Replies.{attempt, after_store, after_core, after_world}
use barq_control_plane.Api.Tenants.{tenant_action}
use barq_control_plane.Api.Keys.{authorize_key_scope}
use barq_control_plane.Api.Hooks.{hook_action, counted}
use barq_control_plane.Api.Rules.{rule_action}

module _ {V C : Type 0} (P : World V C → Type 0) where
  pub attempt_leaves :
      {A : Type 0} (a : Result A) (w : World V C) (go : A → Response V × World V C)
      → P w
      → ((x : A) → a ≡ ok x → P (go x).1)
      → P (attempt a w go).1
  attempt_leaves (err e) w go same next = same
  attempt_leaves (ok x) w go same next = next x refl

  pub after_store_leaves :
      {A : Type 0} (reply : A → Response V) (w : World V C) (x : Result A × Store V)
      → P (record w { store = x.1 })
      → P (after_store reply w x).1
  after_store_leaves reply w (err e, s) done = done
  after_store_leaves reply w (ok a, s) done = done

  pub after_core_leaves :
      {A : Type 0} (reply : A → Response V) (w : World V C) (x : Result A × C)
      → P (record w { core = x.1 })
      → P (after_core reply w x).1
  after_core_leaves reply w (err e, c) done = done
  after_core_leaves reply w (ok a, c) done = done

  pub after_world_leaves :
      {A : Type 0} (reply : A → Response V) (x : Result A × World V C)
      → P x.1
      → P (after_world reply x).1
  after_world_leaves reply (err e, w) done = done
  after_world_leaves reply (ok a, w) done = done

  pub if_leaves :
      (b : Bool) (x y : Response V × World V C)
      → (b ≡ true → P x.1)
      → (b ≡ false → P y.1)
      → P (if b then x else y).1
  if_leaves true x y yes_ no_ = yes_ refl
  if_leaves false x y yes_ no_ = no_ refl

-- A relation that each operation respects which a request of this method may run for this principal.
pub record IsServed {V C : Type 0} (env : ApiEnv V C) (r : HttpRequest) (p : Principal)
    (R : World V C → World V C → Type 0) : Type 0 where
  pub same : (w : World V C) → R w w
  pub tenant_created :
      (input : CreateTenantInput) (w : World V C) (u : Unit {0})
      → (r.method == "POST") ≡ true
      → authorize_global p tenant_action ≡ ok u
      → R w (record w { store = (create_tenant env.auth (r.clock 0) input w.store).1 })
  pub tenant_updated :
      (id : String) (input : UpdateTenantInput) (w : World V C) (u : Unit {0})
      → (r.method == "PATCH") ≡ true
      → authorize_global p tenant_action ≡ ok u
      → R w (record w { store = (update_tenant env.auth (r.clock 0) id input w.store).1 })
  pub tenant_disabled :
      (id : String) (w : World V C) (u : Unit {0})
      → (r.method == "DELETE") ≡ true
      → authorize_global p tenant_action ≡ ok u
      → R w (record w { store = (disable_tenant env.auth (r.clock 0) id w.store).1 })
  pub key_created :
      (input : CreateServiceKeyInput) (w : World V C) (u : Unit {0})
      → (r.method == "POST") ≡ true
      → authorize_key_scope p input.tenant input.database ≡ ok u
      → R w (record w { store = (create_key env.auth (r.clock 0) input w.store).1 })
  pub key_rotated :
      (id : String) (key : ServiceKey) (w : World V C) (u : Unit {0})
      → (r.method == "POST") ≡ true
      → get_key env.auth w.store id ≡ ok key
      → authorize_key_scope p key.tenant key.database ≡ ok u
      → R w (record w { store = (rotate_key env.auth (r.clock 0) id w.store).1 })
  pub key_updated :
      (id : String) (key : ServiceKey) (input : UpdateServiceKeyInput) (w : World V C)
      (u : Unit {0})
      → (r.method == "PATCH") ≡ true
      → get_key env.auth w.store id ≡ ok key
      → authorize_key_scope p key.tenant key.database ≡ ok u
      → R w (record w { store = (update_key env.auth (r.clock 0) id input w.store).1 })
  pub key_revoked :
      (id : String) (key : ServiceKey) (w : World V C) (u : Unit {0})
      → (r.method == "DELETE") ≡ true
      → get_key env.auth w.store id ≡ ok key
      → authorize_key_scope p key.tenant key.database ≡ ok u
      → R w (record w { store = (revoke_key env.auth (r.clock 0) id w.store).1 })
  pub hook_registered :
      (input : Registration V) (w : World V C) (u : Unit {0})
      → (r.method == "POST") ≡ true
      → authorize p input.scope hook_action ≡ ok u
      → R w (record w { store = (register env.hooks (r.clock 0) input w.store).1 })
  pub hook_updated :
      (id : String) (hook : Webhook V) (input : Registration V) (w : World V C) (u v : Unit {0})
      → (r.method == "PATCH") ≡ true
      → get_hook env.hooks w.store id ≡ ok hook
      → authorize p hook.scope hook_action ≡ ok u
      → authorize p input.scope hook_action ≡ ok v
      → R w (record w { store = (update env.hooks (r.clock 0) id input w.store).1 })
  pub hook_disabled :
      (id : String) (hook : Webhook V) (w : World V C) (u : Unit {0})
      → (r.method == "DELETE") ≡ true
      → get_hook env.hooks w.store id ≡ ok hook
      → authorize p hook.scope hook_action ≡ ok u
      → R w (record w { store = (disable env.hooks (r.clock 0) id w.store).1 })
  pub secret_rotated :
      (hook : Webhook V) (w : World V C) (u : Unit {0})
      → (r.method == "POST") ≡ true
      → authorize p hook.scope hook_action ≡ ok u
      → R w
          (record w { store = (rotate_secret env.hooks (r.clock 0) (r.clock 1) hook.id w.store).1 })
  pub replayed :
      (hook : Webhook V) (w : World V C) (u : Unit {0})
      → (r.method == "POST") ≡ true
      → authorize p hook.scope hook_action ≡ ok u
      → R w (record w { store = (counted (replay env.hooks r.clock hook.id w.store)).1 })
  pub rules_read :
      (scope : Scope) (request_id : String) (w : World V C) (u : Unit {0})
      → (r.method == "GET") ≡ true
      → authorize p scope rule_action ≡ ok u
      → R w (current_rules env.rules env.core r.clock scope request_id w).1
  pub rules_applied :
      (scope : Scope) (input : ApplyInput) (w : World V C) (u : Unit {0})
      → (r.method == "PUT") ≡ true
      → authorize p scope rule_action ≡ ok u
      → R w (apply_rules env.rules env.core r.clock scope input w).1
  pub rules_restored :
      (scope : Scope) (revision : ℕ) (input : ApplyInput) (w : World V C) (u : Unit {0})
      → (r.method == "POST") ≡ true
      → authorize p scope rule_action ≡ ok u
      → R w (restore env.rules env.core r.clock scope revision input w).1
  pub object_written :
      (request : WriteRequest V) (w : World V C) (u : Unit {0})
      → (r.method == "GET") ≡ false
      → authorize p request.scope "write" ≡ ok u
      → R w (record w { core = (env.objects.write_object w.core request).1 })
  pub batch_run :
      (request : BatchRequest V) (w : World V C) (u : Unit {0})
      → (r.method == "POST") ≡ true
      → authorize p request.scope "write" ≡ ok u
      → R w (record w { core = (env.objects.execute_batch w.core request).1 })
  pub schema_applied :
      (request : SchemaRequest V) (w : World V C) (u : Unit {0})
      → (r.method == "POST") ≡ true
      → authorize p request.scope "schema:admin" ≡ ok u
      → R w (record w { core = (env.objects.apply_schema w.core request).1 })
