-- ===== src/Api/Hooks.antt =====
-- The endpoints of webhooks and their health: `webhookCollection`, `webhookMember`, `webhookAction`
-- and `operationsHealth` of internal/api/server.go.
use barq_control_plane.Base.{
  ℕ, String, ◌==◌, is_blank, if◌then◌else◌, not, ◌&&◌, none, some, List, [], ◌∷◌, Result, ok, err,
}
use barq_control_plane.Base.Results.{is_ok}
use barq_control_plane.Base.Split.{split_cuts}
use barq_control_plane.Base.Text.{trim_prefix}
use barq_control_plane.Control.Store.{Store}
use barq_control_plane.Auth.Access.{Principal, authorize, authorize_action, can_access_scope}
use barq_control_plane.SyncRules.Types.{World}
use barq_control_plane.Webhooks.Types.{Webhook}
use barq_control_plane.Webhooks.Service.{
  get_hook, register, update, disable, rotate_secret, test_hook,
}
use barq_control_plane.Webhooks.Queue.{Progress, list_hooks, operational_health, replay}
use barq_control_plane.Api.Types.{
  HttpRequest, Response, ApiEnv, hooks_answer, hook_answer, registered, outcome_answer,
  secret_answer, replayed_answer, operations_answer,
}
use barq_control_plane.Api.Replies.{
  route_error, decode_json, write_json, write_one_time_secret, write_error, write_no_content,
  not_allowed, attempt, after_store,
}
use barq_control_plane.Api.Keys.{member_parts}

abbrev pub hook_action : String
hook_action = "webhooks:admin"

unfoldable pub visible_hooks : {V : Type 0} → Principal → List (Webhook V) → List (Webhook V)
unfolding authorize
visible_hooks p [] = []
visible_hooks p (hook ∷ hooks) =
    let rest = visible_hooks p hooks in
    if is_ok (authorize p hook.scope hook_action) then hook ∷ rest else rest

-- The count of a replay as a result: the error, if one ended it.
abbrev pub counted : {V : Type 0} → Progress × Store V → Result ℕ × Store V
counted (progress, s) = elim progress.failure [
  | none ↦ (ok progress.count, s)
  | some e ↦ (err e, s)
]

module _ {V C : Type 0} (env : ApiEnv V C) (r : HttpRequest) (p : Principal) where
  abbrev pub post_hook : World V C → Response V × World V C
  post_hook w = attempt (decode_json env.bodies.registration r.body) w λ input.
      attempt (authorize p input.scope hook_action) w λ u.
        after_store (λ made. write_one_time_secret 201 (registered made)) w
          (register env.hooks (r.clock 0) input w.store)

  abbrev pub get_hooks : World V C → Response V × World V C
  get_hooks w =
      attempt (list_hooks env.hooks none w.store) w
        λ hooks. (write_json 200 (hooks_answer (visible_hooks p hooks)), w)

  unfoldable pub webhook_collection : World V C → Response V × World V C
  unfolding decode_json authorize visible_hooks list_hooks register
  webhook_collection w =
      if r.method == "POST"
      then post_hook w
      else if r.method == "GET"
      then get_hooks w
      else (not_allowed "GET, POST", w)

  abbrev pub test_action : Webhook V → World V C → Response V × World V C
  test_action hook w = attempt (decode_json env.bodies.event r.body) w λ event.
      attempt (test_hook env.hooks hook.id event w.store) w
        λ outcome. (write_json 200 (outcome_answer outcome), w)

  unfoldable pub webhook_action : Webhook V → String → World V C → Response V × World V C
  unfolding decode_json test_hook rotate_secret replay
  webhook_action hook action w =
      if action == "test"
      then test_action hook w
      else if action == "rotate-secret"
      then after_store (λ secret. write_one_time_secret 200 (secret_answer secret)) w
          (rotate_secret env.hooks (r.clock 0) (r.clock 1) hook.id w.store)
      else if action == "replay"
      then after_store (λ count. write_json 200 (replayed_answer count)) w
          (counted (replay env.hooks r.clock hook.id w.store))
      else (write_error route_error, w)

  abbrev pub patch_hook : String → World V C → Response V × World V C
  patch_hook id w = attempt (decode_json env.bodies.registration r.body) w λ input.
      attempt (authorize p input.scope hook_action) w λ u.
        after_store (λ hook. write_json 200 (hook_answer hook)) w
          (update env.hooks (r.clock 0) id input w.store)

  abbrev pub found_hook : String → String → Webhook V → World V C → Response V × World V C
  found_hook id action hook w =
      if not (is_blank action) && r.method == "POST"
      then webhook_action hook action w
      else if r.method == "GET"
      then (write_json 200 (hook_answer hook), w)
      else if r.method == "PATCH"
      then patch_hook id w
      else if r.method == "DELETE"
      then after_store (λ done. write_no_content) w (disable env.hooks (r.clock 0) id w.store)
      else (not_allowed "GET, PATCH, DELETE", w)

  unfoldable pub webhook_member : World V C → Response V × World V C
  unfolding decode_json split_cuts trim_prefix authorize webhook_action get_hook update disable
  webhook_member w =
      let (id, action) = member_parts r.path "/v1/webhooks/" in
      attempt (get_hook env.hooks w.store id) w
        λ hook. attempt (authorize p hook.scope hook_action) w λ u. found_hook id action hook w

  -- operationsHealth
  unfoldable pub operations_health : World V C → Response V × World V C
  unfolding authorize_action can_access_scope operational_health
  operations_health w = attempt (authorize_action p "operations:read") w λ u.
      attempt (operational_health env.hooks (can_access_scope p) w.store) w
        λ health. (write_json 200 (operations_answer health), w)
