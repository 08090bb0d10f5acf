-- ===== src/Api/Served/Keys.antt =====
-- The handlers of tenants and keys.
use barq_control_plane.Base.{
  String, ◌≡◌, refl, ◌==◌, is_blank, true, false, not, ◌||◌, Result, ok, err, arith, coded,
  forbidden,
}
use barq_control_plane.Base.Results.{is_ok}
use barq_control_plane.Base.Suffix.{has_char}
use barq_control_plane.Base.Text.{trim_prefix}
use barq_control_plane.Auth.Types.{Tenant, ServiceKey}
use barq_control_plane.Auth.Tenants.{list_tenants, get_tenant}
use barq_control_plane.Auth.Keys.{list_keys, get_key, key_view}
use barq_control_plane.Auth.Access.{Principal, authorize, authorize_action, authorize_global}
use barq_control_plane.SyncRules.Types.{World}
use barq_control_plane.Api.Types.{HttpRequest, ApiEnv}
use barq_control_plane.Api.Replies.{write_error, not_allowed, decode_json, route_error}
use barq_control_plane.Api.Tenants.{
  tenant_action, post_tenant, get_tenants, tenant_collection, show_tenant, patch_tenant,
  delete_tenant, found_tenant, tenant_member,
}
use barq_control_plane.Api.Types.{key_answer}
use barq_control_plane.Api.Replies.{write_json, write_no_content}
use barq_control_plane.Api.Keys.{
  key_action, authorize_key_scope, can_manage_key, member_parts, get_keys, post_key,
  api_key_collection, patch_key, act_on_key, managed_key, found_key, api_key_member,
}
use barq_control_plane.Api.Served.{IsServed, attempt_leaves, after_store_leaves, if_leaves}

module _ {V C : Type 0} (env : ApiEnv V C) (r : HttpRequest) (p : Principal)
    (R : World V C → World V C → Type 0) (rule : IsServed env r p R) where
  post_tenant-respects :
      (w : World V C) → (r.method == "POST") ≡ true → R w (post_tenant env r p w).1
  post_tenant-respects w posted =
      attempt_leaves (R w) (authorize_global p tenant_action) w _ (rule.same w) λ u allowed.
        attempt_leaves (R w) (decode_json env.bodies.create_tenant r.body) w _ (rule.same w)
          λ input read.
            after_store_leaves (R w) _ w _ (rule.tenant_created input w u posted allowed)

  get_tenants-respects : (w : World V C) → R w (get_tenants env r p w).1
  get_tenants-respects w =
      attempt_leaves (R w) (authorize_action p tenant_action) w _ (rule.same w) λ u allowed.
        attempt_leaves (R w) (list_tenants env.auth w.store) w _ (rule.same w)
          λ tenants listed. rule.same w

  pub tenant_collection-respects : (w : World V C) → R w (tenant_collection env r p w).1
  unfolding tenant_collection
  tenant_collection-respects w =
      if_leaves (R w) (r.method == "GET") (get_tenants env r p w) _ (λ got. get_tenants-respects w)
        λ other.
          if_leaves (R w) (r.method == "POST") (post_tenant env r p w) (not_allowed "GET, POST", w)
            (post_tenant-respects w) λ neither. rule.same w

  show_tenant-respects : (tenant : Tenant) (w : World V C) → R w (show_tenant env r p tenant w).1
  show_tenant-respects tenant w =
      attempt_leaves (R w)
        (authorize p (record { tenant = tenant.id; database = "*" }) tenant_action) w _
        (rule.same w) λ u allowed. rule.same w

  patch_tenant-respects :
      (id : String) (w : World V C)
      → (r.method == "PATCH") ≡ true
      → R w (patch_tenant env r p id w).1
  patch_tenant-respects id w patched =
      attempt_leaves (R w) (authorize_global p tenant_action) w _ (rule.same w) λ u allowed.
        attempt_leaves (R w) (decode_json env.bodies.update_tenant r.body) w _ (rule.same w)
          λ input read.
            after_store_leaves (R w) _ w _ (rule.tenant_updated id input w u patched allowed)

  delete_tenant-respects :
      (id : String) (w : World V C)
      → (r.method == "DELETE") ≡ true
      → R w (delete_tenant env r p id w).1
  delete_tenant-respects id w deleted =
      attempt_leaves (R w) (authorize_global p tenant_action) w _ (rule.same w)
        λ u allowed. after_store_leaves (R w) _ w _ (rule.tenant_disabled id w u deleted allowed)

  found_tenant-respects :
      (id : String) (tenant : Tenant) (w : World V C) → R w (found_tenant env r p id tenant w).1
  found_tenant-respects id tenant w =
      if_leaves (R w) (r.method == "GET") (show_tenant env r p tenant w) _
        (λ got. show_tenant-respects tenant w)
        λ a.
          if_leaves (R w) (r.method == "PATCH") (patch_tenant env r p id w) _
            (patch_tenant-respects id w)
            λ b.
              if_leaves (R w) (r.method == "DELETE") (delete_tenant env r p id w)
                (not_allowed "GET, PATCH, DELETE", w) (delete_tenant-respects id w) λ c. rule.same w

  pub tenant_member-respects : (w : World V C) → R w (tenant_member env r p w).1
  unfolding tenant_member
  tenant_member-respects w =
      let id = trim_prefix r.path "/v1/admin/tenants/" in
      if_leaves (R w) (is_blank id || has_char b'/' id) (write_error route_error, w) _
        (λ bad. rule.same w)
        λ good.
          attempt_leaves (R w) (get_tenant env.auth w.store id) w _ (rule.same w)
            λ tenant found. found_tenant-respects id tenant w

  post_key-respects : (w : World V C) → (r.method == "POST") ≡ true → R w (post_key env r p w).1
  post_key-respects w posted =
      attempt_leaves (R w) (decode_json env.bodies.create_key r.body) w _ (rule.same w)
        λ input read.
          attempt_leaves (R w) (authorize_key_scope p input.tenant input.database) w _ (rule.same w)
            λ u allowed. after_store_leaves (R w) _ w _ (rule.key_created input w u posted allowed)

  get_keys-respects : (w : World V C) → R w (get_keys env r p w).1
  get_keys-respects w =
      attempt_leaves (R w) (authorize_action p key_action) w _ (rule.same w) λ u allowed.
        attempt_leaves (R w) (list_keys env.auth w.store) w _ (rule.same w)
          λ keys listed. rule.same w

  pub api_key_collection-respects : (w : World V C) → R w (api_key_collection env r p w).1
  unfolding api_key_collection
  api_key_collection-respects w =
      if_leaves (R w) (r.method == "GET") (get_keys env r p w) _ (λ got. get_keys-respects w)
        λ other.
          if_leaves (R w) (r.method == "POST") (post_key env r p w) (not_allowed "GET, POST", w)
            (post_key-respects w) λ neither. rule.same w

  module _ (id : String) (key : ServiceKey) (w : World V C) (u : Unit {0})
      (found : get_key env.auth w.store id ≡ ok key)
      (allowed : authorize_key_scope p key.tenant key.database ≡ ok u) where
    patch_key-respects : (r.method == "PATCH") ≡ true → R w (patch_key env r p id w).1
    patch_key-respects patched =
        attempt_leaves (R w) (decode_json env.bodies.update_key r.body) w _ (rule.same w)
          λ input read.
            after_store_leaves (R w) _ w _ (rule.key_updated id key input w u patched found allowed)

    managed_key-respects : (action : String) → R w (managed_key env r p id action key w).1
    managed_key-respects action =
        if_leaves (R w) (not (is_blank action)) _ _
          (λ given.
            if_leaves (R w) (not (action == "rotate") || not (r.method == "POST"))
              (write_error route_error, w) (act_on_key env r p id w) (λ bad. rule.same w)
              λ good.
                after_store_leaves (R w) _ w _
                  (rule.key_rotated id key w u (ground (arith, good)) found allowed))
          λ plain_.
            if_leaves (R w) (r.method == "GET") (write_json 200 (key_answer (key_view key)), w) _
              (λ got. rule.same w)
              λ a.
                if_leaves (R w) (r.method == "PATCH") (patch_key env r p id w) _ patch_key-respects
                  λ b.
                    if_leaves (R w) (r.method == "DELETE") _ (not_allowed "GET, PATCH, DELETE", w)
                      (λ deleted.
                        after_store_leaves (R w) (λ done. write_no_content) w _
                          (rule.key_revoked id key w u deleted found allowed))
                      λ c. rule.same w

  is_ok-cases : {A : Type 0} (x : Result A) → not (is_ok x) ≡ false → (a : A) × (x ≡ ok a)
  is_ok-cases (ok a) h = (a, refl)
  is_ok-cases (err e) h = cc

  found_key-respects :
      (id action : String) (key : ServiceKey) (w : World V C)
      → get_key env.auth w.store id ≡ ok key
      → R w (found_key env r p id action key w).1
  unfolding can_manage_key
  found_key-respects id action key w found =
      if_leaves (R w) (not (can_manage_key p key))
        (write_error (coded forbidden "API key cannot manage this key scope"), w)
        (managed_key env r p id action key w) (λ refused. rule.same w)
        λ managed.
          let (u, allowed) = is_ok-cases (authorize_key_scope p key.tenant key.database) managed in
          managed_key-respects id key w u found allowed action

  pub api_key_member-respects : (w : World V C) → R w (api_key_member env r p w).1
  unfolding api_key_member
  api_key_member-respects w =
      let (id, action) = member_parts r.path "/v1/admin/api-keys/" in
      if_leaves (R w) (is_blank id || has_char b'/' id) (write_error route_error, w) _
        (λ bad. rule.same w)
        λ good.
          attempt_leaves (R w) (get_key env.auth w.store id) w _ (rule.same w)
            λ key found. found_key-respects id action key w found
