-- ===== src/Api/Served/Managed.antt =====
-- Relations between stores for which only the operations on tenants and keys matter, of all that the
-- handlers run.
use barq_control_plane.Base.{arith, ℕ, String, ◌≡◌, refl, ok}
use barq_control_plane.Control.Store.{Store}
use barq_control_plane.Control.Store.Spared.{Spared, Spared-same}
use barq_control_plane.Auth.Types.{
  ServiceKey, CreateTenantInput, UpdateTenantInput, CreateServiceKeyInput, UpdateServiceKeyInput,
  api_key_collection,
}
use barq_control_plane.Auth.Tenants.{create_tenant, update_tenant, disable_tenant}
use barq_control_plane.Auth.Keys.{get_key}
use barq_control_plane.Auth.KeyChanges.{create_key, update_key, revoke_key, rotate_key}
use barq_control_plane.Auth.Access.{Principal, authorize_global}
use barq_control_plane.Webhooks.Queue.{Progress, replay}
use barq_control_plane.Webhooks.Spared.{
  IsNoHooks, register_spares, update_spares, disable_spares, rotate_secret_spares, replay_spares,
}
use barq_control_plane.SyncRules.Finish.Frame.{IsElsewhere, Spared-IsRespected}
use barq_control_plane.SyncRules.Service.Laws.{
  current_rules-respects, apply_rules-respects, restore-respects,
}
use barq_control_plane.Api.Types.{HttpRequest, ApiEnv}
use barq_control_plane.Api.Tenants.{tenant_action}
use barq_control_plane.Api.Keys.{authorize_key_scope}
use barq_control_plane.Api.Hooks.{counted}
use barq_control_plane.Api.Served.{IsServed}

-- Every collection is spared that holds neither webhooks nor sync rules.
abbrev pub SparesOthers : {V : Type 0} → Store V → Store V → Type 0
SparesOthers s t = (c : String) → IsNoHooks c → IsElsewhere c → Spared c s t

pub no_hooks : IsNoHooks api_key_collection
no_hooks = record { no_hook = refl; no_revision = refl; no_delivery = refl }

pub no_rules : IsElsewhere api_key_collection
no_rules = record { no_revision = refl; no_head = refl; no_pending = refl }

counted_spares :
    {V : Type 0} (c : String) (s : Store V) (x : Progress × Store V)
    → Spared c s x.1
    → Spared c s (counted x).1
counted_spares c s (progress, t) h = ground (arith, h)

-- A relation that holds if all other collections are spared, and that the operations on tenants and
-- keys respect which a request may run for this principal.
pub record IsManaged {V C : Type 0} (env : ApiEnv V C) (p : Principal)
    (R : Store V → Store V → Type 0) : Type 0 where
  pub sparing : (s t : Store V) → SparesOthers s t → R s t
  pub tenant_created :
      (now : ℕ) (input : CreateTenantInput) (s : Store V) (u : Unit {0})
      → authorize_global p tenant_action ≡ ok u
      → R s (create_tenant env.auth now input s).1
  pub tenant_updated :
      (now : ℕ) (id : String) (input : UpdateTenantInput) (s : Store V) (u : Unit {0})
      → authorize_global p tenant_action ≡ ok u
      → R s (update_tenant env.auth now id input s).1
  pub tenant_disabled :
      (now : ℕ) (id : String) (s : Store V) (u : Unit {0})
      → authorize_global p tenant_action ≡ ok u
      → R s (disable_tenant env.auth now id s).1
  pub key_created :
      (now : ℕ) (input : CreateServiceKeyInput) (s : Store V) (u : Unit {0})
      → authorize_key_scope p input.tenant input.database ≡ ok u
      → R s (create_key env.auth now input s).1
  pub key_rotated :
      (now : ℕ) (id : String) (key : ServiceKey) (s : Store V) (u : Unit {0})
      → get_key env.auth s id ≡ ok key
      → authorize_key_scope p key.tenant key.database ≡ ok u
      → R s (rotate_key env.auth now id s).1
  pub key_updated :
      (now : ℕ) (id : String) (key : ServiceKey) (input : UpdateServiceKeyInput) (s : Store V)
      (u : Unit {0})
      → get_key env.auth s id ≡ ok key
      → authorize_key_scope p key.tenant key.database ≡ ok u
      → R s (update_key env.auth now id input s).1
  pub key_revoked :
      (now : ℕ) (id : String) (key : ServiceKey) (s : Store V) (u : Unit {0})
      → get_key env.auth s id ≡ ok key
      → authorize_key_scope p key.tenant key.database ≡ ok u
      → R s (revoke_key env.auth now id s).1

module _ {V C : Type 0} (env : ApiEnv V C) (r : HttpRequest) (p : Principal)
    (R : Store V → Store V → Type 0) (rule : IsManaged env p R) where
  pub managed-IsServed : IsServed env r p (λ w v. R w.store v.store)
  managed-IsServed = record {
    same = λ w. rule.sparing _ _ (λ c hooks rules. Spared-same c w.store);
    tenant_created = λ input w u m h. rule.tenant_created (r.clock 0) input w.store u h;
    tenant_updated = λ id input w u m h. rule.tenant_updated (r.clock 0) id input w.store u h;
    tenant_disabled = λ id w u m h. rule.tenant_disabled (r.clock 0) id w.store u h;
    key_created = λ input w u m h. rule.key_created (r.clock 0) input w.store u h;
    key_rotated = λ id k w u m f h. rule.key_rotated (r.clock 0) id k w.store u f h;
    key_updated = λ id k input w u m f h. rule.key_updated (r.clock 0) id k input w.store u f h;
    key_revoked = λ id k w u m f h. rule.key_revoked (r.clock 0) id k w.store u f h;
    hook_registered = λ input w u m h.
        rule.sparing _ _
          λ c hooks rules. register_spares env.hooks c hooks w.store (r.clock 0) input;
    hook_updated = λ id hook input w u v m f h g.
        rule.sparing _ _
          λ c hooks rules. update_spares env.hooks c hooks w.store (r.clock 0) id input;
    hook_disabled = λ id hook w u m f h.
        rule.sparing _ _ λ c hooks rules. disable_spares env.hooks c hooks w.store (r.clock 0) id;
    secret_rotated = λ hook w u m h. rule.sparing _ _ λ c hooks rules.
        rotate_secret_spares env.hooks c hooks w.store (r.clock 0) (r.clock 1) hook.id;
    replayed = λ hook w u m h. rule.sparing _ _ λ c hooks rules.
        counted_spares c w.store (replay env.hooks r.clock hook.id w.store)
          (replay_spares env.hooks c hooks r.clock hook.id w.store);
    rules_read = λ scope id w u m h. rule.sparing _ _ λ c hooks rules.
        current_rules-respects env.rules env.core (Spared c) (Spared-IsRespected env.rules c rules)
          r.clock scope id w;
    rules_applied = λ scope input w u m h. rule.sparing _ _ λ c hooks rules.
        apply_rules-respects env.rules env.core (Spared c) (Spared-IsRespected env.rules c rules)
          r.clock scope input w;
    rules_restored = λ scope n input w u m h. rule.sparing _ _ λ c hooks rules.
        restore-respects env.rules env.core (Spared c) (Spared-IsRespected env.rules c rules)
          r.clock scope n input w;
    object_written = λ request w u m h. rule.sparing _ _ λ c hooks rules. Spared-same c w.store;
    batch_run = λ request w u m h. rule.sparing _ _ λ c hooks rules. Spared-same c w.store;
    schema_applied = λ request w u m h. rule.sparing _ _ λ c hooks rules. Spared-same c w.store;
  }
