-- ===== src/Api/Safety/Isolation.antt =====
-- The keys of one tenant, and the others.
use barq_control_plane.Base.{String, ◌≡◌, ◌≢◌, refl, sym, ap, ◌∙◌, some, ok, inl, inr}
use barq_control_plane.Base.Results.{bind_elim, ok-injective}
use barq_control_plane.Control.Types.{Record, decode}
use barq_control_plane.Control.Store.{Store, find_record}
use barq_control_plane.Control.Store.Spared.{Spared}
use barq_control_plane.Auth.Types.{ServiceKey, IsLawful, api_key_collection}
use barq_control_plane.Auth.Keys.{get_key, read_key}
use barq_control_plane.Auth.Keys.Laws.{IsKeyTable}
use barq_control_plane.Auth.KeyChanges.Others.{
  create_key_keeps, update_key_keeps, revoke_key_keeps, rotate_key_keeps,
}
use barq_control_plane.Auth.Access.{authenticate}
use barq_control_plane.Auth.Spared.{
  create_tenant_spares, update_tenant_spares, disable_tenant_spares,
}
use barq_control_plane.SyncRules.Types.{World}
use barq_control_plane.Api.Types.{HttpRequest, ApiEnv}
use barq_control_plane.Api.Keys.{authorize_key_scope}
use barq_control_plane.Api.Keys.Laws.{authorize_key_scope_iff}
use barq_control_plane.Api.Routes.{handle}
use barq_control_plane.Api.Served.Managed.{IsManaged, managed-IsServed, no_hooks, no_rules}
use barq_control_plane.Api.Served.Routes.{handle-respects}

module _ {V C : Type 0} (env : ApiEnv V C) where
  -- The keys of other tenants are found where they were.
  abbrev OthersKept : String → Store V → Store V → Type 0
  OthersKept tenant s t =
      (q : Record V) (key : ServiceKey)
      → find_record api_key_collection q.key s.records ≡ some q
      → decode env.auth.keys q ≡ ok key
      → key.tenant ≢ tenant
      → find_record api_key_collection q.key t.records ≡ some q

  abbrev Keeps : String → Store V → Store V → Type 0
  Keeps tenant s t = IsKeyTable env.auth s → OthersKept tenant s t

  away : (tenant : String) (s t : Store V) → Spared api_key_collection s t → Keeps tenant s t
  away tenant s t spared tab q key found reads other = spared.untouched q.key ∙ found

  -- A key that a principal of one tenant may manage is of this tenant.
  own_tenant :
      (p : ServiceKey) (tenant database : String) (u : Unit {0})
      → p.tenant ≢ "*"
      → authorize_key_scope (some p) tenant database ≡ ok u
      → p.tenant ≡ tenant
  own_tenant p tenant database u narrow h =
      elim (((authorize_key_scope_iff p tenant database).0 h).tenant_within) [
        | inl wide ↦ absurd (narrow wide)
        | inr same ↦ same
      ]

  -- So it is not the key of another tenant.
  managed_differs :
      (p : ServiceKey) (s : Store V) (id : String) (k key : ServiceKey) (u : Unit {0})
      → p.tenant ≢ "*"
      → get_key env.auth s id ≡ ok k
      → authorize_key_scope (some p) k.tenant k.database ≡ ok u
      → key.tenant ≢ p.tenant
      → (old : ServiceKey) (at : Record V) → read_key env.auth s id ≡ ok (old, at)
      → old ≢ key
  unfolding get_key
  managed_differs p s id k key u narrow got allowed other old at was_read same =
      bind_elim (read_key env.auth s id) _ got λ found read returned.
        let old_is : old ≡ k = cc (was_read, read, ok-injective returned) in
        other (
          ap (λ (x : ServiceKey). x.tenant) (sym same ∙ old_is)
          ∙ sym (own_tenant p k.tenant k.database u narrow allowed))

  isolated-IsManaged :
      (law : IsLawful env.auth) (p : ServiceKey)
      → p.tenant ≢ "*"
      → IsManaged env (some p) (Keeps p.tenant)
  isolated-IsManaged law p narrow = record {
    sparing = λ s t others. away p.tenant s t (others api_key_collection no_hooks no_rules);
    tenant_created = λ now input s u h.
        away p.tenant s _ (create_tenant_spares env.auth api_key_collection refl s now input);
    tenant_updated = λ now id input s u h.
        away p.tenant s _ (update_tenant_spares env.auth api_key_collection refl s now id input);
    tenant_disabled = λ now id s u h.
        away p.tenant s _ (disable_tenant_spares env.auth api_key_collection refl s now id);
    key_created = λ now input s u h tab q key found reads other.
        create_key_keeps env.auth s q found law now input;
    key_rotated = λ now id k s u f h tab q key found reads other.
        rotate_key_keeps env.auth s q found law tab key reads id
          (managed_differs p s id k key u narrow f h other) now;
    key_updated = λ now id k input s u f h tab q key found reads other.
        update_key_keeps env.auth s q found law tab key reads id
          (managed_differs p s id k key u narrow f h other) now input;
    key_revoked = λ now id k s u f h tab q key found reads other.
        revoke_key_keeps env.auth s q found law tab key reads id
          (managed_differs p s id k key u narrow f h other) now;
  }

  kept_for :
      (r : HttpRequest) (w : World V C) (tenant : String)
      → IsLawful env.auth
      → tenant ≢ "*"
      → ((key : ServiceKey)
          → authenticate env.auth w.store r.authorization ≡ some key
          → key.tenant ≡ tenant)
      → Keeps tenant w.store (handle env r w).1.store
  kept_for r w tenant law narrow owned =
      handle-respects env r (λ v x. Keeps tenant v.store x.store) w
        (λ v tab q key found reads other. found)
        (λ key e. rw (← owned key e) (
          managed-IsServed env r (some key) (Keeps key.tenant)
            (isolated-IsManaged law key (λ wide. narrow (sym (owned key e) ∙ wide)))))

  -- If the encoding is lawful and every key stands under its digest, then a request that is
  -- authenticated, if at all, by keys of one tenant that is not `*` leaves every stored API key of
  -- another tenant as it is, the global keys included.
  pub handle_keeps_others :
      (r : HttpRequest) (w : World V C) (tenant : String)
      → IsLawful env.auth
      → IsKeyTable env.auth w.store
      → tenant ≢ "*"
      → ((key : ServiceKey)
          → authenticate env.auth w.store r.authorization ≡ some key
          → key.tenant ≡ tenant)
      → (q : Record V) (other : ServiceKey)
      → find_record api_key_collection q.key w.store.records ≡ some q
      → decode env.auth.keys q ≡ ok other
      → other.tenant ≢ tenant
      → find_record api_key_collection q.key (handle env r w).1.store.records ≡ some q
  handle_keeps_others r w tenant law tab narrow owned = kept_for r w tenant law narrow owned tab
