-- ===== src/Api/Served/Hooks.antt =====
-- The handlers of webhooks.
use barq_control_plane.Base.{String, ◌≡◌, ◌==◌, is_blank, true, not, ◌&&◌, none, ok, arith}
use barq_control_plane.Auth.Access.{Principal, authorize, authorize_action, can_access_scope}
use barq_control_plane.SyncRules.Types.{World}
use barq_control_plane.Webhooks.Types.{Webhook}
use barq_control_plane.Webhooks.Service.{get_hook, rotate_secret, test_hook, disable}
use barq_control_plane.Webhooks.Queue.{list_hooks, operational_health, replay}
use barq_control_plane.Api.Types.{HttpRequest, ApiEnv, hook_answer}
use barq_control_plane.Api.Replies.{
  write_error, write_json, write_no_content, not_allowed, decode_json, route_error,
}
use barq_control_plane.Api.Keys.{member_parts}
use barq_control_plane.Api.Hooks.{
  hook_action, counted, post_hook, get_hooks, webhook_collection, test_action, webhook_action,
  patch_hook, found_hook, webhook_member, operations_health,
}
use barq_control_plane.Api.Served.{IsServed, attempt_leaves, after_store_leaves, if_leaves}

module _ {V C : Type 0} (env : ApiEnv V C) (r : HttpRequest) (p : Principal)
    (R : World V C → World V C → Type 0) (rule : IsServed env r p R) where
  post_hook-respects : (w : World V C) → (r.method == "POST") ≡ true → R w (post_hook env r p w).1
  post_hook-respects w posted =
      attempt_leaves (R w) (decode_json env.bodies.registration r.body) w _ (rule.same w)
        λ input read.
          attempt_leaves (R w) (authorize p input.scope hook_action) w _ (rule.same w) λ u allowed.
            after_store_leaves (R w) _ w _ (rule.hook_registered input w u posted allowed)

  get_hooks-respects : (w : World V C) → R w (get_hooks env r p w).1
  get_hooks-respects w =
      attempt_leaves (R w) (list_hooks env.hooks none w.store) w _ (rule.same w)
        λ hooks listed. rule.same w

  pub webhook_collection-respects : (w : World V C) → R w (webhook_collection env r p w).1
  unfolding webhook_collection
  webhook_collection-respects w =
      if_leaves (R w) (r.method == "POST") (post_hook env r p w) _ (post_hook-respects w) λ other.
        if_leaves (R w) (r.method == "GET") (get_hooks env r p w) (not_allowed "GET, POST", w)
          (λ got. get_hooks-respects w) λ neither. rule.same w

  test_action-respects : (hook : Webhook V) (w : World V C) → R w (test_action env r p hook w).1
  test_action-respects hook w =
      attempt_leaves (R w) (decode_json env.bodies.event r.body) w _ (rule.same w) λ event read.
        attempt_leaves (R w) (test_hook env.hooks hook.id event w.store) w _ (rule.same w)
          λ outcome done. rule.same w

  webhook_action-respects :
      (hook : Webhook V) (action : String) (w : World V C) (u : Unit {0})
      → (r.method == "POST") ≡ true
      → authorize p hook.scope hook_action ≡ ok u
      → R w (webhook_action env r p hook action w).1
  unfolding webhook_action
  webhook_action-respects hook action w u posted allowed =
      if_leaves (R w) (action == "test") (test_action env r p hook w) _
        (λ a. test_action-respects hook w)
        λ a.
          if_leaves (R w) (action == "rotate-secret") _ _
            (λ b.
              after_store_leaves (R w) _ w
                (rotate_secret env.hooks (r.clock 0) (r.clock 1) hook.id w.store)
                (rule.secret_rotated hook w u posted allowed))
            λ b.
              if_leaves (R w) (action == "replay") _ (write_error route_error, w)
                (λ c.
                  after_store_leaves (R w) _ w (counted (replay env.hooks r.clock hook.id w.store))
                    (rule.replayed hook w u posted allowed))
                λ c. rule.same w

  module _ (id : String) (hook : Webhook V) (w : World V C) (u : Unit {0})
      (found : get_hook env.hooks w.store id ≡ ok hook)
      (allowed : authorize p hook.scope hook_action ≡ ok u) where
    patch_hook-respects : (r.method == "PATCH") ≡ true → R w (patch_hook env r p id w).1
    patch_hook-respects patched =
        attempt_leaves (R w) (decode_json env.bodies.registration r.body) w _ (rule.same w)
          λ input read.
            attempt_leaves (R w) (authorize p input.scope hook_action) w _ (rule.same w)
              λ v granted.
                after_store_leaves (R w) _ w _
                  (rule.hook_updated id hook input w u v patched found allowed granted)

    found_hook-respects : (action : String) → R w (found_hook env r p id action hook w).1
    found_hook-respects action =
        if_leaves (R w) (not (is_blank action) && r.method == "POST")
          (webhook_action env r p hook action w) _
          (λ h. webhook_action-respects hook action w u (ground (arith, h)) allowed)
          λ plain_.
            if_leaves (R w) (r.method == "GET") (write_json 200 (hook_answer hook), w) _
              (λ got. rule.same w)
              λ a.
                if_leaves (R w) (r.method == "PATCH") (patch_hook env r p id w) _
                  patch_hook-respects
                  λ b.
                    if_leaves (R w) (r.method == "DELETE") _ (not_allowed "GET, PATCH, DELETE", w)
                      (λ deleted.
                        after_store_leaves (R w) (λ done. write_no_content) w
                          (disable env.hooks (r.clock 0) id w.store)
                          (rule.hook_disabled id hook w u deleted found allowed))
                      λ c. rule.same w

  pub webhook_member-respects : (w : World V C) → R w (webhook_member env r p w).1
  unfolding webhook_member
  webhook_member-respects w =
      let (id, action) = member_parts r.path "/v1/webhooks/" in
      attempt_leaves (R w) (get_hook env.hooks w.store id) w _ (rule.same w) λ hook found.
        attempt_leaves (R w) (authorize p hook.scope hook_action) w _ (rule.same w)
          λ u allowed. found_hook-respects id hook w u found allowed action

  pub operations_health-respects : (w : World V C) → R w (operations_health env r p w).1
  unfolding operations_health
  operations_health-respects w =
      attempt_leaves (R w) (authorize_action p "operations:read") w _ (rule.same w) λ u allowed.
        attempt_leaves (R w) (operational_health env.hooks (can_access_scope p) w.store) w _
          (rule.same w) λ health done. rule.same w
