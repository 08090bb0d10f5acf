-- ===== src/Api/Objects.antt =====
-- The endpoints of objects and schemas: `create`, `object`, `query`, `batch`, `schema` and `ready` of
-- internal/api/server.go.
use barq_control_plane.Base.{ℕ, String, ◌==◌, if◌then◌else◌, Option, none, some, List, [], ◌∷◌}
use barq_control_plane.Auth.Tenants.{Scope}
use barq_control_plane.Auth.Access.{Principal, authorize}
use barq_control_plane.SyncRules.Types.{World}
use barq_control_plane.DataPlane.Objects.{
  Object, SchemaRequest, WriteRequest, WriteResult, write_create, write_patch, write_delete,
}
use barq_control_plane.Api.Types.{
  HttpRequest, CreateBody, Response, ApiEnv, health_answer, schema_result, object_answer,
  write_answer, query_answer, batch_answer,
}
use barq_control_plane.Api.Replies.{
  route_error, decode_json, write_with, write_json, write_error, not_allowed, attempt, after_core,
}

abbrev pub etag_header : {V : Type 0} → Option (Object V) → List (String × String)
etag_header none = []
etag_header (some object) = ("ETag", object.etag) ∷ []

abbrev pub write_reply : {V : Type 0} → ℕ → WriteResult V → Response V
write_reply status result = write_with (etag_header result.object) status (write_answer result)

module _ {V C : Type 0} (env : ApiEnv V C) (r : HttpRequest) where
  unfoldable pub ready : World V C → Response V × World V C
  ready w =
      attempt (env.objects.health w.core) w λ health. (write_json 200 (health_answer health), w)

module _ {V C : Type 0} (env : ApiEnv V C) (r : HttpRequest) (p : Principal) (request_id : String)
    (scope : Scope) where
  abbrev pub create_request : String → CreateBody V → WriteRequest V
  create_request object_type body = record {
    request_id = request_id;
    idempotency_key = r.idempotency_key;
    scope = scope;
    operation = write_create;
    object_type = object_type;
    primary_key = body.primary_key;
    fields = body.fields;
    if_match = "";
  }

  unfoldable pub create_object : String → World V C → Response V × World V C
  unfolding decode_json authorize
  create_object object_type w = attempt (authorize p scope "write") w λ u.
      attempt (decode_json env.bodies.create r.body) w λ body.
        after_core (write_reply 201) w
          (env.objects.write_object w.core (create_request object_type body))

  abbrev pub change_request : String → String → String → Option V → WriteRequest V
  change_request operation object_type primary_key fields = record {
    request_id = request_id;
    idempotency_key = r.idempotency_key;
    scope = scope;
    operation = operation;
    object_type = object_type;
    primary_key = env.string_value primary_key;
    fields = fields;
    if_match = r.if_match;
  }

  abbrev pub read_one : String → String → World V C → Response V × World V C
  read_one object_type primary_key w = attempt (authorize p scope "read") w λ u.
      attempt
        (env.objects.read_object w.core (record {
          request_id = request_id;
          scope = scope;
          object_type = object_type;
          primary_key = env.string_value primary_key;
        }))
        w λ object. (write_with (etag_header (some object)) 200 (object_answer object), w)

  abbrev pub patch_one : String → String → World V C → Response V × World V C
  patch_one object_type primary_key w = attempt (authorize p scope "write") w λ u.
      attempt (decode_json env.bodies.patch r.body) w λ fields. after_core (write_reply 200) w (
        env.objects.write_object w.core (change_request write_patch object_type primary_key fields))

  abbrev pub delete_one : String → String → World V C → Response V × World V C
  delete_one object_type primary_key w = attempt (authorize p scope "write") w λ u.
      after_core (λ result. write_json 200 (write_answer result)) w
        (env.objects.write_object w.core (change_request write_delete object_type primary_key none))

  unfoldable pub object : String → String → World V C → Response V × World V C
  unfolding decode_json authorize
  object object_type primary_key w =
      if r.method == "GET"
      then read_one object_type primary_key w
      else if r.method == "PATCH"
      then patch_one object_type primary_key w
      else if r.method == "DELETE"
      then delete_one object_type primary_key w
      else (not_allowed "GET, PATCH, DELETE", w)

  unfoldable pub query : String → World V C → Response V × World V C
  unfolding decode_json authorize
  query object_type w = attempt (authorize p scope "read") w λ u.
      attempt (decode_json env.bodies.query r.body) w λ request.
        attempt
          (env.objects.query_objects w.core
            (record request { request_id = request_id; scope = scope; object_type = object_type }))
          w λ result. (write_json 200 (query_answer result), w)

  unfoldable pub batch : World V C → Response V × World V C
  unfolding decode_json authorize
  batch w = attempt (authorize p scope "write") w λ u.
      attempt (decode_json env.bodies.batch r.body) w λ request.
        after_core (λ result. write_json 200 (batch_answer result)) w
          (env.objects.execute_batch w.core (record request {
            request_id = request_id;
            idempotency_key = r.idempotency_key;
            scope = scope;
          }))

  -- The plan or the change of a schema, by the last part of the path.
  abbrev pub schema_answered : String → SchemaRequest V → World V C → Response V × World V C
  schema_answered action request w =
      if action == "plan"
      then (attempt (env.objects.plan_schema w.core request) w
          λ result. (write_json 200 (schema_result result), w))
      else if action == "apply"
      then after_core (λ result. write_json 200 (schema_result result)) w
          (env.objects.apply_schema w.core request)
      else (write_error route_error, w)

  unfoldable pub change_schema : String → World V C → Response V × World V C
  unfolding decode_json authorize
  change_schema action w = attempt (authorize p scope "schema:admin") w λ u.
      attempt (decode_json env.bodies.schema r.body) w
        λ body. schema_answered action (record body { request_id = request_id; scope = scope }) w
