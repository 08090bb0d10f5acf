-- ===== src/Api/Rules.antt =====
-- The endpoints of sync rules and of the schema that is read: `syncRuleRoutes`, `decodeRuleApply`,
-- `ruleOperationID`, `setRuleHeaders` and `readSchema` of internal/api/server.go.
use barq_control_plane.Base.{
  ℕ, String, ◌==◌, ◌<>◌, is_blank, if◌then◌else◌, ◌&&◌, none, some, List, [], ◌∷◌, coded,
  invalid_argument, Result, ok, err,
}
use barq_control_plane.Base.Decimal.{decimal}
use barq_control_plane.Base.Suffix.{ends_with, trim_suffix}
use barq_control_plane.Base.Text.{trim_space}
use barq_control_plane.Auth.Tenants.{Scope}
use barq_control_plane.Auth.Access.{Principal, authorize}
use barq_control_plane.SyncRules.Types.{ApplyInput, FlxRulesTestRequest, World}
use barq_control_plane.SyncRules.Service.{
  schema, current_rules, plan_rules, apply_rules, test_rules, history, restore,
}
use barq_control_plane.Api.Types.{
  HttpRequest, RuleBody, RestoreBody, RuleTestBody, Response, ApiEnv, rules_answer, rules_result,
  rules_test, history_answer, schema_answer,
}
use barq_control_plane.Api.Replies.{
  route_error, decode_json, write_with, write_json, write_error, attempt, after_world,
}

abbrev pub rule_action : String
rule_action = "sync:admin"

abbrev pub principal_id : Principal → String
principal_id none = ""
principal_id (some key) = key.id

-- ruleOperationID
unfoldable pub rule_operation_id : String → String → String
unfolding trim_space
rule_operation_id idempotency_key request_id =
    let key = trim_space idempotency_key in if is_blank key then request_id else key

-- setRuleHeaders
unfoldable pub rule_headers : ℕ → String → List (String × String)
unfolding decimal
rule_headers revision hash =
    ("X-Barq-Rule-Revision", decimal revision)
    ∷ (if is_blank hash then [] else ("ETag", "\"" <> (hash <> "\"")) ∷ [])

module _ {V C : Type 0} (env : ApiEnv V C) (r : HttpRequest) (p : Principal)
    (request_id : String) where
  -- decodeRuleApply
  abbrev pub apply_input : RuleBody → ApplyInput
  apply_input body = record {
    expected_revision = body.expected_revision;
    rules = body.rules;
    request_id = rule_operation_id r.idempotency_key request_id;
    actor = principal_id p;
  }

  abbrev pub restore_input : RestoreBody → ApplyInput
  restore_input body = record {
    expected_revision = body.expected_revision;
    rules = [];
    request_id = rule_operation_id r.idempotency_key request_id;
    actor = principal_id p;
  }

  -- The scope of the request is the one of the path, which `Test` puts in.
  abbrev pub test_request : RuleTestBody V → FlxRulesTestRequest V
  test_request body = record {
    request_id = request_id;
    scope = record { tenant = ""; database = "" };
    user_id = body.user_id;
    object_type = body.object_type;
    primary_key = body.primary_key;
    rules = body.rules;
  }

  abbrev pub show_rules : Scope → World V C → Response V × World V C
  show_rules scope w =
      after_world
        (λ current.
          write_with (rule_headers current.revision current.hash) 200 (rules_answer current))
        (current_rules env.rules env.core r.clock scope request_id w)

  abbrev pub post_plan : Scope → World V C → Response V × World V C
  post_plan scope w = attempt (decode_json env.bodies.rule r.body) w λ body.
      attempt (plan_rules env.rules env.core scope (apply_input body) w) w
        λ result. (write_json 200 (rules_result result), w)

  abbrev pub post_test : Scope → World V C → Response V × World V C
  post_test scope w = attempt (decode_json env.bodies.rule_test r.body) w λ body.
      attempt (test_rules env.rules env.core scope (test_request body) w) w
        λ result. (write_json 200 (rules_test result), w)

  abbrev pub put_rules : Scope → World V C → Response V × World V C
  put_rules scope w = attempt (decode_json env.bodies.rule r.body) w λ body.
      after_world
        (λ result.
          write_with (rule_headers result.rule_set.revision result.rule_set.hash) 200
            (rules_result result))
        (apply_rules env.rules env.core r.clock scope (apply_input body) w)

  abbrev pub rules_root : Scope → String → World V C → Response V × World V C
  rules_root scope part w =
      if part == "sync-rules" && r.method == "GET"
      then show_rules scope w
      else if part == "sync-rules:plan" && r.method == "POST"
      then post_plan scope w
      else if part == "sync-rules:test" && r.method == "POST"
      then post_test scope w
      else if part == "sync-rules" && r.method == "PUT"
      then put_rules scope w
      else (write_error route_error, w)

  abbrev pub show_history : Scope → World V C → Response V × World V C
  show_history scope w =
      attempt (history env.rules env.core scope w) w
        λ revisions. (write_json 200 (history_answer revisions), w)

  abbrev pub parsed_revision : String → Result ℕ
  parsed_revision text = elim (env.parse_uint (trim_suffix text ":restore")) [
    | none ↦ err (coded invalid_argument "invalid sync-rule revision")
    | some n ↦ ok n
  ]

  abbrev pub post_restore : Scope → String → World V C → Response V × World V C
  post_restore scope text w = attempt (parsed_revision text) w λ revision.
      attempt (decode_json env.bodies.restore r.body) w λ body.
        after_world
          (λ result.
            write_with (rule_headers result.rule_set.revision result.rule_set.hash) 200
              (rules_result result))
          (restore env.rules env.core r.clock scope revision (restore_input body) w)

  -- The paths below the one of the rules.
  abbrev pub rules_below :
      Scope → String → String → List String → World V C → Response V × World V C
  rules_below scope root below [] w =
      if root == "sync-rules" && below == "revisions" && r.method == "GET"
      then show_history scope w
      else (write_error route_error, w)
  rules_below scope root below (last ∷ []) w =
      if root == "sync-rules"
        && below == "revisions"
        && ends_with last ":restore"
        && r.method == "POST"
      then post_restore scope last w
      else (write_error route_error, w)
  rules_below scope root below (last ∷ other ∷ more) w = (write_error route_error, w)

  abbrev pub rules_at : Scope → List String → World V C → Response V × World V C
  rules_at scope [] w = (write_error route_error, w)
  rules_at scope (part ∷ []) w = rules_root scope part w
  rules_at scope (root ∷ below ∷ more) w = rules_below scope root below more w

  unfoldable pub sync_rule_routes : Scope → List String → World V C → Response V × World V C
  unfolding decode_json rule_operation_id rule_headers ends_with trim_suffix authorize current_rules
      plan_rules test_rules apply_rules history restore
  sync_rule_routes scope parts w =
      attempt (authorize p scope rule_action) w λ u. rules_at scope parts w

  unfoldable pub read_schema : Scope → World V C → Response V × World V C
  unfolding authorize schema
  read_schema scope w = attempt (authorize p scope rule_action) w λ u.
      attempt (schema env.rules env.core scope request_id w) w
        λ found. (write_json 200 (schema_answer found), w)
