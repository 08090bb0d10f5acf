-- ===== src/Auth/Access/Laws.antt =====
-- When a digest is admitted, and when a principal is authorised.
use barq_control_plane.Base.{coded, internal, leb, len}
use barq_control_plane.Base.Text.{starts_with, trim_prefix, trim_space}
use barq_control_plane.Base.{
  ℕ, String, ◌≡◌, ◌↔◌, refl, ◌==◌, eq_iff, if◌then◌else◌, true, ◌||◌, not, none, some, List, [],
  ◌∷◌, ok, err, arith, ◌⊎◌, inl, inr, Bool-cases,
}
use barq_control_plane.Base.Results.{ensure_elim, ok-injective, Result-cases}
use barq_control_plane.Base.Lists.{contains}
use barq_control_plane.Control.Types.{Record, decode}
use barq_control_plane.Control.Store.{Store, get}
use barq_control_plane.Auth.Types.{
  Tenant, ServiceKey, AuthEnv, unauthorized_error, api_key_collection,
}
use barq_control_plane.Auth.Tenants.{Scope, read_tenant}
use barq_control_plane.Auth.Access.{
  tenant_admits, admit_key, find_by_digest, allows_action, authorize, authenticate,
}

module _ {V : Type 0} (env : AuthEnv V) where
  -- The tenant of the key is stored, enabled, and has the database of the key.
  pub record TenantAdmits (s : Store V) (tenant database : String) : Type 0 where
    pub owner : Tenant
    pub version : ℕ
    pub was_read : read_tenant env s tenant ≡ ok (owner, version)
    pub enabled : owner.enabled ≡ true
    pub registered : (database ≡ "*") ⊎ (contains owner.databases database ≡ true)

  abbrev pub Owned : Store V → ServiceKey → Type 0
  Owned s key = (key.tenant ≡ "*") ⊎ TenantAdmits s key.tenant key.database

  -- The key that is stored at the digest may be used.
  pub record IsAdmitted (s : Store V) (digest : String) (key : ServiceKey) : Type 0 where
    pub place : Record V
    pub was_read : get s api_key_collection digest ≡ ok place
    pub reads : decode env.keys place ≡ ok key
    pub enabled : key.enabled ≡ true
    pub owned : Owned s key

  tenant_admits-TenantAdmits :
      (s : Store V) (tenant database : String)
      → tenant_admits (read_tenant env s tenant) database ≡ true
      → TenantAdmits s tenant database
  tenant_admits-TenantAdmits s tenant database h = elim (Result-cases (read_tenant env s tenant)) [
    | inl ((owner, version), e) ↦
        let h' = rw e at h in
        record {
          owner = owner;
          version = version;
          was_read = e;
          enabled = ground arith;
          registered = ground (arith, eq_iff database "*");
        }
    | inr (e, failed) ↦ cc (rw failed at h)
  ]

  TenantAdmits-tenant_admits :
      (s : Store V) (tenant database : String)
      → TenantAdmits s tenant database
      → tenant_admits (read_tenant env s tenant) database ≡ true
  TenantAdmits-tenant_admits s tenant database a =
      rw a.was_read (ground (arith, a.enabled, a.registered, eq_iff database "*"))

  Owned-of :
      (s : Store V) (k : ServiceKey)
      → (k.tenant == "*" || tenant_admits (read_tenant env s k.tenant) k.database) ≡ true
      → Owned s k
  Owned-of s k h = elim (Bool-cases (k.tenant == "*")) [
    | inl p ↦ inl ((eq_iff k.tenant "*").0 p)
    | inr n ↦ inr (tenant_admits-TenantAdmits s k.tenant k.database (ground arith))
  ]

  admit_key-ok :
      (s : Store V) (k : ServiceKey) {key : ServiceKey}
      → admit_key env s k ≡ ok key
      → (k ≡ key) × (k.enabled ≡ true) × Owned s k
  unfolding admit_key
  admit_key-ok s k h = ensure_elim k.enabled unauthorized_error _ h λ enabled h₁.
      ensure_elim (k.tenant == "*" || tenant_admits (read_tenant env s k.tenant) k.database)
        unauthorized_error _ h₁ λ owned h₂. (ok-injective h₂, enabled, Owned-of s k owned)

  admitted-admit_key :
      (s : Store V) (key : ServiceKey)
      → key.enabled ≡ true
      → Owned s key
      → admit_key env s key ≡ ok key
  unfolding admit_key
  admitted-admit_key s key enabled (inl global) = ground (arith, eq_iff key.tenant "*")
  admitted-admit_key s key enabled (inr a) =
      ground (arith, TenantAdmits-tenant_admits s key.tenant key.database a)

  found :
      (s : Store V) (digest : String) (key : ServiceKey) (r : Record V)
      → get s api_key_collection digest ≡ ok r
      → (elim (decode env.keys r) [
        | err e ↦ err (coded internal "invalid stored API key")
        | ok k ↦ admit_key env s k
      ])
        ≡ ok key
      → IsAdmitted s digest key
  found s digest key r e h = elim (Result-cases (decode env.keys r)) [
    | inl (k, reads) ↦
        let (same, enabled, owned) = admit_key-ok s k (rw reads at h) in
        record {
          place = r;
          was_read = e;
          reads = cc (reads, same);
          enabled = rw same at enabled;
          owned = rw same at owned;
        }
    | inr (e, failed) ↦ cc (rw failed at h)
  ]

  -- A digest is admitted with a key exactly if the key is stored there and enabled, and its tenant,
  -- unless it is global, is enabled and has its database.
  pub find_by_digest_iff :
      (s : Store V) (digest : String) (key : ServiceKey)
      → (find_by_digest env s digest ≡ ok key) ↔ IsAdmitted s digest key
  unfolding find_by_digest
  find_by_digest_iff s digest key = (
    λ h. elim (Result-cases (get s api_key_collection digest)) [
      | inl (r, e) ↦ found s digest key r e (rw (e, find_by_digest) at h)
      | inr (e, failed) ↦ cc (rw (failed, find_by_digest) at h)
    ],
    λ a. rw (a.was_read, find_by_digest) (rw a.reads (admitted-admit_key s key a.enabled a.owned)),
  )

  authenticated :
      (s : Store V) (digest : String) {key : ServiceKey}
      → (elim (find_by_digest env s digest) [
        | err e ↦ none
        | ok k ↦ if not k.enabled || not (k.digest == digest) then none else some k
      ])
        ≡ some key
      → (find_by_digest env s digest ≡ ok key) × (key.digest ≡ digest)
  authenticated s digest {key} h = ground (arith, eq_iff key.digest digest)

  -- A request that is authenticated carries a bearer token. The key that it gets is stored under the
  -- digest of that token, and is admitted there.
  pub authenticate-IsAdmitted :
      (s : Store V) (header : String) {key : ServiceKey}
      → authenticate env s header ≡ some key
      → (starts_with header "Bearer " ≡ true)
        × (key.digest ≡ env.digest (trim_space (trim_prefix header "Bearer ")))
        × IsAdmitted s (env.digest (trim_space (trim_prefix header "Bearer "))) key
  unfolding authenticate
  authenticate-IsAdmitted s header {key} h =
      let digest = env.digest (trim_space (trim_prefix header "Bearer ")) in
      elim (Bool-cases (not (starts_with header "Bearer ") || leb (len header) 7)) [
        | inl refused ↦ cc (rw (authenticate, refused) at h)
        | inr bearer ↦
            let (hit, same) = authenticated s digest (rw (authenticate, bearer) at h) in
            (ground arith, same, (find_by_digest_iff s digest key).0 hit)
      ]

allows_action-contains :
    (actions : List String) (action : String)
    → allows_action actions action ≡ (contains actions "*" || contains actions action)
unfolding allows_action contains
allows_action-contains [] action = refl
allows_action-contains (a ∷ actions) action = ground (arith, allows_action-contains actions action)

-- A key is authorized for an action on a scope exactly if its tenant is `*` or that of the
-- scope, its database is `*` or that of the scope, and it lists `*` or the action.
pub authorize_iff :
    (key : ServiceKey) (scope : Scope) (action : String)
    → (authorize (some key) scope action ≡ ok tt) ↔ (
        ((key.tenant ≡ "*") ⊎ (key.tenant ≡ scope.tenant))
        × ((key.database ≡ "*") ⊎ (key.database ≡ scope.database))
        × ((contains key.actions "*" ≡ true) ⊎ (contains key.actions action ≡ true)))
unfolding authorize
authorize_iff key scope action = ground (
  arith,
  allows_action-contains key.actions action,
  eq_iff key.tenant "*",
  eq_iff key.tenant scope.tenant,
  eq_iff key.database "*",
  eq_iff key.database scope.database,
)
