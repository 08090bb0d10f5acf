-- ===== src/SyncRules/Types.antt =====
-- The data of internal/syncrules/service.go, and the rules and schemas of
-- internal/dataplane/types.go. `V` is any JSON value.
use barq_control_plane.Base.{ℕ, String, Bool, List, Result}
use barq_control_plane.Control.Types.{Codec, IsCodec}
use barq_control_plane.Control.Store.{Store}
use barq_control_plane.Auth.Types.{Time}
use barq_control_plane.Auth.Tenants.{Scope}

abbrev pub revision_collection : String
revision_collection = "sync_rule_revisions"

abbrev pub head_collection : String
head_collection = "sync_rule_heads"

abbrev pub pending_collection : String
pending_collection = "sync_rule_pending"

pub record FlxRule : Type 0 where
  pub object_type : String
  pub read : String
  pub write : String

pub record FlxRuleSet : Type 0 where
  pub revision : ℕ
  pub hash : String
  pub source : String
  pub rules : List FlxRule

pub record FlxRulesReadRequest : Type 0 where
  pub request_id : String
  pub scope : Scope

pub record FlxRulesChangeRequest : Type 0 where
  pub request_id : String
  pub scope : Scope
  pub expected_revision : ℕ
  pub target_revision : ℕ
  pub rules : List FlxRule

-- The rule set that the Go type embeds is the field `rule_set`.
pub record FlxRulesResult : Type 0 where
  pub rule_set : FlxRuleSet
  pub current_revision : ℕ
  pub target_revision : ℕ
  pub changes : List String
  pub applied : Bool
  pub refreshed_sessions : ℕ

pub record FlxRulesTestRequest (V : Type 0) : Type 0 where
  pub request_id : String
  pub scope : Scope
  pub user_id : String
  pub object_type : String
  pub primary_key : V
  pub rules : List FlxRule

pub record FlxRulesTestResult : Type 0 where
  pub object_type : String
  pub found : Bool
  pub configured : Bool
  pub can_read : Bool
  pub can_write : Bool

pub record SchemaReadRequest : Type 0 where
  pub request_id : String
  pub scope : Scope

pub record SchemaProperty : Type 0 where
  pub name : String
  pub property_type : String
  pub nullable : Bool
  pub primary_key : Bool
  pub collection : String
  pub target : String
  pub embedded : Bool

pub record SchemaObject : Type 0 where
  pub name : String
  pub properties : List SchemaProperty

pub record Schema : Type 0 where
  pub version : ℕ
  pub objects : List SchemaObject

pub record Revision : Type 0 where
  pub scope : Scope
  pub revision : ℕ
  pub hash : String
  pub rules : List FlxRule
  pub actor : String
  pub request_id : String
  pub source : String
  pub created_at : Time

pub record Head : Type 0 where
  pub scope : Scope
  pub revision : ℕ
  pub hash : String
  pub updated_at : Time

pub record ApplyInput : Type 0 where
  pub expected_revision : ℕ
  pub rules : List FlxRule
  pub request_id : String
  pub actor : String

pub record PendingApply : Type 0 where
  pub scope : Scope
  pub expected_revision : ℕ
  pub target_revision : ℕ
  pub rules : List FlxRule
  pub actor : String
  pub request_id : String
  pub created_at : Time

-- The data plane's calls on sync rules, over the state `C` of Core.
pub record Core (V C : Type 0) : Type 0 where
  pub read_rules : C → FlxRulesReadRequest → Result FlxRuleSet
  pub plan_rules : C → FlxRulesChangeRequest → Result FlxRulesResult
  pub apply_rules : C → FlxRulesChangeRequest → Result FlxRulesResult × C
  pub test_rules : C → FlxRulesTestRequest V → Result FlxRulesTestResult
  pub read_schema : C → SchemaReadRequest → Result Schema

-- The control database, and Core beside it.
pub record World (V C : Type 0) : Type 0 where
  pub store : Store V
  pub core : C

-- encoding/json at the stored types, and the texts that `json.Marshal` gives for comparisons.
pub record RulesEnv (V : Type 0) : Type 0 where
  pub valid : V → Bool
  pub nil : V
  pub revisions : Codec V Revision
  pub heads : Codec V Head
  pub pendings : Codec V PendingApply
  pub rules_text : List FlxRule → String
  pub pending_text : PendingApply → String

pub record IsLawfulRules {V : Type 0} (env : RulesEnv V) : Type 0 where
  pub revisions_law : IsCodec env.valid env.revisions
  pub heads_law : IsCodec env.valid env.heads
  pub pendings_law : IsCodec env.valid env.pendings
