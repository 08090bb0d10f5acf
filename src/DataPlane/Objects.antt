-- ===== src/DataPlane/Objects.antt =====
-- The objects, queries, batches and schema changes of internal/dataplane/types.go and
-- internal/model/types.go, and the operations of the interface `DataPlane` on them. `V` is any JSON
-- value: Go's `any`, `map[string]any` and raw messages.
use barq_control_plane.Base.{ℕ, String, Bool, Option, List, Result}
use barq_control_plane.Base.Ints.{ℤ}
use barq_control_plane.Auth.Tenants.{Scope}
use barq_control_plane.DataPlane.{Filter, Sort}

pub record Object (V : Type 0) : Type 0 where
  pub object_type : String
  pub primary_key : V
  pub fields : V
  pub etag : String

pub record ReadRequest (V : Type 0) : Type 0 where
  pub request_id : String
  pub scope : Scope
  pub object_type : String
  pub primary_key : V

abbrev pub write_create : String
write_create = "create"

abbrev pub write_patch : String
write_patch = "patch"

abbrev pub write_delete : String
write_delete = "delete"

-- `fields` is the Go field `Data`, and `none` for a nil map.
pub record WriteRequest (V : Type 0) : Type 0 where
  pub request_id : String
  pub idempotency_key : String
  pub scope : Scope
  pub operation : String
  pub object_type : String
  pub primary_key : V
  pub fields : Option V
  pub if_match : String

pub record WriteResult (V : Type 0) : Type 0 where
  pub object : Option (Object V)
  pub deleted : Bool
  pub cursor : ℕ

pub record QueryRequest (V : Type 0) : Type 0 where
  pub request_id : String
  pub scope : Scope
  pub object_type : String
  pub filter_by : Option (Filter V)
  pub sort : List Sort
  pub limit : ℤ
  pub cursor : String

pub record QueryResult (V : Type 0) : Type 0 where
  pub objects : List (Object V)
  pub next_cursor : String

pub record BatchRequest (V : Type 0) : Type 0 where
  pub request_id : String
  pub idempotency_key : String
  pub scope : Scope
  pub operations : List (WriteRequest V)

pub record BatchResult (V : Type 0) : Type 0 where
  pub results : List (WriteResult V)

pub record SchemaRequest (V : Type 0) : Type 0 where
  pub request_id : String
  pub scope : Scope
  pub version : ℕ
  pub manifest : V

pub record SchemaResult : Type 0 where
  pub current_version : ℕ
  pub target_version : ℕ
  pub changes : List String
  pub applied : Bool

pub record Health : Type 0 where
  pub status : String
  pub version : String
  pub capabilities : List String

-- The calls of the data plane on objects and schemas, over the state `C` of Core.
pub record ObjectPlane (V C : Type 0) : Type 0 where
  pub health : C → Result Health
  pub read_object : C → ReadRequest V → Result (Object V)
  pub write_object : C → WriteRequest V → Result (WriteResult V) × C
  pub query_objects : C → QueryRequest V → Result (QueryResult V)
  pub execute_batch : C → BatchRequest V → Result (BatchResult V) × C
  pub plan_schema : C → SchemaRequest V → Result SchemaResult
  pub apply_schema : C → SchemaRequest V → Result SchemaResult × C
