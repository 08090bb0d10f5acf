-- ===== src/Api/Served/Data.antt =====
-- The handlers of sync rules, objects and schemas.
use barq_control_plane.Base.{
  String, ◌≡◌, refl, ◌==◌, eq_iff, true, false, ◌&&◌, none, List, [], ◌∷◌, ok, arith,
}
use barq_control_plane.Base.Suffix.{ends_with}
use barq_control_plane.Auth.Tenants.{Scope}
use barq_control_plane.Auth.Access.{Principal, authorize}
use barq_control_plane.DataPlane.Objects.{SchemaRequest, write_patch, write_delete}
use barq_control_plane.SyncRules.Types.{World}
use barq_control_plane.SyncRules.Service.{
  schema, current_rules, plan_rules, apply_rules, test_rules, history, restore,
}
use barq_control_plane.Api.Types.{HttpRequest, ApiEnv}
use barq_control_plane.Api.Replies.{write_error, not_allowed, decode_json, route_error}
use barq_control_plane.Api.Rules.{
  rule_action, apply_input, restore_input, test_request, show_rules, post_plan, post_test,
  put_rules, rules_root, show_history, parsed_revision, post_restore, rules_below, rules_at,
  sync_rule_routes, read_schema,
}
use barq_control_plane.Api.Objects.{
  write_reply, create_object, create_request, change_request, read_one, patch_one, delete_one,
  object, query, batch, schema_answered, change_schema,
}
use barq_control_plane.Api.Served.{
  IsServed, attempt_leaves, after_core_leaves, after_world_leaves, if_leaves,
}

-- A method that is not GET.
pub other_method : (m n : String) → (n == "GET") ≡ false → (m == n) ≡ true → (m == "GET") ≡ false
other_method m n h same = ground (arith, eq_iff m n, eq_iff m "GET", eq_iff n "GET", h, same)

module _ {V C : Type 0} (env : ApiEnv V C) (r : HttpRequest) (p : Principal) (request_id : String)
    (R : World V C → World V C → Type 0) (rule : IsServed env r p R) where
  post_plan-respects :
      (scope : Scope) (w : World V C) → R w (post_plan env r p request_id scope w).1
  post_plan-respects scope w =
      attempt_leaves (R w) (decode_json env.bodies.rule r.body) w _ (rule.same w) λ body read.
        attempt_leaves (R w)
          (plan_rules env.rules env.core scope (apply_input env r p request_id body) w) w _
          (rule.same w) λ result done. rule.same w

  post_test-respects :
      (scope : Scope) (w : World V C) → R w (post_test env r p request_id scope w).1
  post_test-respects scope w =
      attempt_leaves (R w) (decode_json env.bodies.rule_test r.body) w _ (rule.same w) λ body read.
        attempt_leaves (R w)
          (test_rules env.rules env.core scope (test_request env r p request_id body) w) w _
          (rule.same w) λ result done. rule.same w

  module _ (scope : Scope) (w : World V C) (u : Unit {0})
      (allowed : authorize p scope rule_action ≡ ok u) where
    put_rules-respects : (r.method == "PUT") ≡ true → R w (put_rules env r p request_id scope w).1
    put_rules-respects written =
        attempt_leaves (R w) (decode_json env.bodies.rule r.body) w _ (rule.same w) λ body read.
          after_world_leaves (R w) _
            (apply_rules env.rules env.core r.clock scope (apply_input env r p request_id body) w)
            (rule.rules_applied scope (apply_input env r p request_id body) w u written allowed)

    rules_root-respects : (part : String) → R w (rules_root env r p request_id scope part w).1
    rules_root-respects part =
        if_leaves (R w) (part == "sync-rules" && r.method == "GET")
          (show_rules env r p request_id scope w) _
          (λ h.
            after_world_leaves (R w) _ (current_rules env.rules env.core r.clock scope request_id w)
              (rule.rules_read scope request_id w u (ground (arith, h)) allowed))
          λ a.
            if_leaves (R w) (part == "sync-rules:plan" && r.method == "POST")
              (post_plan env r p request_id scope w) _ (λ h. post_plan-respects scope w)
              λ b.
                if_leaves (R w) (part == "sync-rules:test" && r.method == "POST")
                  (post_test env r p request_id scope w) _ (λ h. post_test-respects scope w)
                  λ c.
                    if_leaves (R w) (part == "sync-rules" && r.method == "PUT")
                      (put_rules env r p request_id scope w) (write_error route_error, w)
                      (λ h. put_rules-respects (ground (arith, h))) λ d. rule.same w

    show_history-respects : R w (show_history env r p request_id scope w).1
    show_history-respects =
        attempt_leaves (R w) (history env.rules env.core scope w) w _ (rule.same w)
          λ revisions done. rule.same w

    post_restore-respects :
        (text : String)
        → (r.method == "POST") ≡ true
        → R w (post_restore env r p request_id scope text w).1
    post_restore-respects text posted =
        attempt_leaves (R w) (parsed_revision env r p request_id text) w _ (rule.same w)
          λ revision parsed.
            attempt_leaves (R w) (decode_json env.bodies.restore r.body) w _ (rule.same w)
              λ body read.
                after_world_leaves (R w) _
                  (restore env.rules env.core r.clock scope revision
                    (restore_input env r p request_id body) w)
                  (rule.rules_restored scope revision (restore_input env r p request_id body) w u
                    posted allowed)

    rules_below-respects :
        (root below : String) (more : List String)
        → R w (rules_below env r p request_id scope root below more w).1
    rules_below-respects root below [] =
        if_leaves (R w) (root == "sync-rules" && below == "revisions" && r.method == "GET")
          (show_history env r p request_id scope w) (write_error route_error, w)
          (λ h. show_history-respects) λ h. rule.same w
    rules_below-respects root below (last ∷ []) =
        if_leaves (R w)
          (root == "sync-rules"
            && below == "revisions"
            && ends_with last ":restore"
            && r.method == "POST")
          (post_restore env r p request_id scope last w) (write_error route_error, w)
          (λ h. post_restore-respects last (ground (arith, h))) λ h. rule.same w
    rules_below-respects root below (last ∷ other ∷ more) = rule.same w

    rules_at-respects : (parts : List String) → R w (rules_at env r p request_id scope parts w).1
    rules_at-respects [] = rule.same w
    rules_at-respects (part ∷ []) = rules_root-respects part
    rules_at-respects (root ∷ below ∷ more) = rules_below-respects root below more

  pub sync_rule_routes-respects :
      (scope : Scope) (parts : List String) (w : World V C)
      → R w (sync_rule_routes env r p request_id scope parts w).1
  unfolding sync_rule_routes
  sync_rule_routes-respects scope parts w =
      attempt_leaves (R w) (authorize p scope rule_action) w _ (rule.same w)
        λ u allowed. rules_at-respects scope w u allowed parts

  pub read_schema-respects :
      (scope : Scope) (w : World V C) → R w (read_schema env r p request_id scope w).1
  unfolding read_schema
  read_schema-respects scope w =
      attempt_leaves (R w) (authorize p scope rule_action) w _ (rule.same w) λ u allowed.
        attempt_leaves (R w) (schema env.rules env.core scope request_id w) w _ (rule.same w)
          λ found done. rule.same w

  module _ (scope : Scope) (w : World V C) where
    pub create_object-respects :
        (object_type : String)
        → (r.method == "POST") ≡ true
        → R w (create_object env r p request_id scope object_type w).1
    unfolding create_object
    create_object-respects object_type posted =
        attempt_leaves (R w) (authorize p scope "write") w _ (rule.same w) λ u allowed.
          attempt_leaves (R w) (decode_json env.bodies.create r.body) w _ (rule.same w) λ body read.
            let request = create_request env r p request_id scope object_type body in
            after_core_leaves (R w) (write_reply 201) w (env.objects.write_object w.core request)
              (rule.object_written request w u (other_method r.method "POST" refl posted) allowed)

    read_one-respects :
        (object_type primary_key : String)
        → R w (read_one env r p request_id scope object_type primary_key w).1
    read_one-respects object_type primary_key =
        attempt_leaves (R w) (authorize p scope "read") w _ (rule.same w)
          λ u allowed. attempt_leaves (R w) _ w _ (rule.same w) λ found done. rule.same w

    patch_one-respects :
        (object_type primary_key : String)
        → (r.method == "GET") ≡ false
        → R w (patch_one env r p request_id scope object_type primary_key w).1
    patch_one-respects object_type primary_key not_got =
        attempt_leaves (R w) (authorize p scope "write") w _ (rule.same w) λ u allowed.
          attempt_leaves (R w) (decode_json env.bodies.patch r.body) w _ (rule.same w)
            λ fields read.
              let request =
                change_request env r p request_id scope write_patch object_type primary_key
                  fields in
              after_core_leaves (R w) (write_reply 200) w (env.objects.write_object w.core request)
                (rule.object_written request w u not_got allowed)

    delete_one-respects :
        (object_type primary_key : String)
        → (r.method == "GET") ≡ false
        → R w (delete_one env r p request_id scope object_type primary_key w).1
    delete_one-respects object_type primary_key not_got =
        attempt_leaves (R w) (authorize p scope "write") w _ (rule.same w) λ u allowed.
          let request =
            change_request env r p request_id scope write_delete object_type primary_key none in
          after_core_leaves (R w) _ w (env.objects.write_object w.core request)
            (rule.object_written request w u not_got allowed)

    pub object-respects :
        (object_type primary_key : String)
        → R w (object env r p request_id scope object_type primary_key w).1
    unfolding object
    object-respects object_type primary_key =
        if_leaves (R w) (r.method == "GET")
          (read_one env r p request_id scope object_type primary_key w) _
          (λ got. read_one-respects object_type primary_key)
          λ not_got.
            if_leaves (R w) (r.method == "PATCH")
              (patch_one env r p request_id scope object_type primary_key w) _
              (λ a. patch_one-respects object_type primary_key not_got)
              λ b.
                if_leaves (R w) (r.method == "DELETE")
                  (delete_one env r p request_id scope object_type primary_key w)
                  (not_allowed "GET, PATCH, DELETE", w)
                  (λ c. delete_one-respects object_type primary_key not_got) λ c. rule.same w

    pub query-respects :
        (object_type : String) → R w (query env r p request_id scope object_type w).1
    unfolding query
    query-respects object_type =
        attempt_leaves (R w) (authorize p scope "read") w _ (rule.same w) λ u allowed.
          attempt_leaves (R w) (decode_json env.bodies.query r.body) w _ (rule.same w)
            λ request read. attempt_leaves (R w) _ w _ (rule.same w) λ result done. rule.same w

    pub batch-respects : (r.method == "POST") ≡ true → R w (batch env r p request_id scope w).1
    unfolding batch
    batch-respects posted =
        attempt_leaves (R w) (authorize p scope "write") w _ (rule.same w) λ u allowed.
          attempt_leaves (R w) (decode_json env.bodies.batch r.body) w _ (rule.same w)
            λ request read.
              let full = record request {
                request_id = request_id;
                idempotency_key = r.idempotency_key;
                scope = scope;
              } in
              after_core_leaves (R w) _ w (env.objects.execute_batch w.core full)
                (rule.batch_run full w u posted allowed)

    schema_answered-respects :
        (action : String) (request : SchemaRequest V) (u : Unit {0})
        → (r.method == "POST") ≡ true
        → authorize p request.scope "schema:admin" ≡ ok u
        → R w (schema_answered env r p request_id scope action request w).1
    schema_answered-respects action request u posted allowed =
        if_leaves (R w) (action == "plan") _ _
          (λ a.
            attempt_leaves (R w) (env.objects.plan_schema w.core request) w _ (rule.same w)
              λ result done. rule.same w)
          λ a.
            if_leaves (R w) (action == "apply") _ (write_error route_error, w)
              (λ b.
                after_core_leaves (R w) _ w (env.objects.apply_schema w.core request)
                  (rule.schema_applied request w u posted allowed))
              λ b. rule.same w

    pub change_schema-respects :
        (action : String)
        → (r.method == "POST") ≡ true
        → R w (change_schema env r p request_id scope action w).1
    unfolding change_schema
    change_schema-respects action posted =
        attempt_leaves (R w) (authorize p scope "schema:admin") w _ (rule.same w) λ u allowed.
          attempt_leaves (R w) (decode_json env.bodies.schema r.body) w _ (rule.same w) λ body read.
            schema_answered-respects action (record body { request_id = request_id; scope = scope })
              u posted allowed
