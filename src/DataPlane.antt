-- ===== src/DataPlane.antt =====
-- The types that the control plane shares with the data plane: internal/model/types.go and
-- internal/dataplane/types.go. `V` is any JSON value: Go's `any` and `map[string]any`.
pub mod Canonical
pub mod Objects
use barq_control_plane.Base.{
  Result, ℕ, String, ◌==◌, is_blank, Bool, not, ◌&&◌, Option, List, Error, coded, plain, ◌<>◌,
}
use barq_control_plane.Base.Results.{code_text}
use barq_control_plane.Base.Ints.{ℤ}
use barq_control_plane.Auth.Types.{Time}
use barq_control_plane.Auth.Tenants.{Scope}

-- The text of an error.
abbrev pub error_text : Error → String
error_text (coded c m) = code_text c <> (": " <> m)
error_text (plain m) = m

-- Scope.Valid
abbrev pub valid_scope : Scope → Bool
valid_scope s = not (is_blank s.tenant) && not (is_blank s.database)

-- `==` of two scopes
abbrev pub same_scope : Scope → Scope → Bool
same_scope a b = a.tenant == b.tenant && a.database == b.database

pub record ChangeEvent (V : Type 0) : Type 0 where
  pub id : String
  pub scope : Scope
  pub cursor : ℕ
  pub snapshot : ℕ
  pub event_type : String
  pub object_type : String
  pub primary_key : V
  pub source : String
  pub changed : List String
  pub before : Option V
  pub after : Option V
  pub committed_at : Time

pub record EventContext (V : Type 0) : Type 0 where
  pub event : ChangeEvent V
  pub before : Option V
  pub after : Option V
  pub related : Option V

mutual
  pub data Filter (V : Type 0) : Type 0 where
    filter : (field op : String) (value : V) (children : Filters V) → Filter V

  pub data Filters (V : Type 0) : Type 0 where
    no_filter : Filters V
    more_filters : Filter V → Filters V → Filters V

abbrev pub filter_field : {V : Type 0} → Filter V → String
filter_field (filter field op value children) = field

abbrev pub filter_op : {V : Type 0} → Filter V → String
filter_op (filter field op value children) = op

pub record Sort : Type 0 where
  pub field : String
  pub desc : Bool

-- `As`, `From` and `Where` are `alias`, `from` and `condition`.
pub record RelatedRead (V : Type 0) : Type 0 where
  pub alias : String
  pub from : String
  pub condition : Filter V
  pub sort : List Sort
  pub limit : ℤ
  pub one : Bool

pub record ChangesRequest : Type 0 where
  pub scope : Scope
  pub after : ℕ
  pub limit : ℕ

pub record MaterializeRequest (V : Type 0) : Type 0 where
  pub scope : Scope
  pub event_id : String
  pub reads : List (RelatedRead V)

-- The operations of the interface `DataPlane` that the webhook workers call.
pub record DataPlane (V : Type 0) : Type 0 where
  pub read_changes : ChangesRequest → Result (List (ChangeEvent V))
  pub materialize_event : MaterializeRequest V → Result (EventContext V)
