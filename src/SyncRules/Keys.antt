-- ===== src/SyncRules/Keys.antt =====
-- The keys of the records of sync rules, and the comparisons: the functions at the end of
-- internal/syncrules/service.go.
pub mod Laws
use barq_control_plane.Base.{
  ℕ, String, ◌==◌, ◌<>◌, len, Bool, true, false, ◌&&◌, ◌||◌, eqb, if◌then◌else◌, List, Error,
  is_code, invalid_argument, not_found, conflict, precondition_failed, unauthorized, forbidden,
  resource_exceeded,
}
use barq_control_plane.Base.Lists.{length}
use barq_control_plane.Base.Order.{str_leb}
use barq_control_plane.Base.Sorting.{sort_by}
use barq_control_plane.Base.Decimal.{decimal, padded}
use barq_control_plane.Auth.Tenants.{Scope}
use barq_control_plane.SyncRules.Types.{FlxRule, PendingApply, RulesEnv}

-- A text after its length in bytes.
abbrev pub sized : String → String
sized text = decimal (len text) <> (":" <> text)

unfoldable pub scope_key : Scope → String
unfolding decimal
scope_key scope = sized scope.tenant <> ("/" <> sized scope.database)

unfoldable pub revision_key : Scope → ℕ → String
unfolding scope_key padded
revision_key scope revision = scope_key scope <> ("/" <> padded revision)

-- The key of the request that is applied.
unfoldable pub pending_key : Scope → String → String
unfolding scope_key
pending_key scope request_id = scope_key scope <> ("/" <> request_id)

unfoldable pub is_final_apply_error : Error → Bool
is_final_apply_error e =
    is_code e invalid_argument
    || is_code e not_found
    || is_code e conflict
    || is_code e precondition_failed
    || is_code e unauthorized
    || is_code e forbidden
    || is_code e resource_exceeded

abbrev pub type_leb : FlxRule → FlxRule → Bool
type_leb a b = str_leb a.object_type b.object_type

module _ {V : Type 0} (env : RulesEnv V) where
  unfoldable pub same_pending : PendingApply → PendingApply → Bool
  same_pending left right = env.pending_text left == env.pending_text right

  unfoldable pub same_rules : List FlxRule → List FlxRule → Bool
  unfolding sort_by
  same_rules left right =
      eqb (length left) (length right)
      && env.rules_text (sort_by type_leb left) == env.rules_text (sort_by type_leb right)
