-- ===== src/Control/Types.antt =====
-- Records, mutations and the JSON form of values: internal/control/store.go. `V` is the type of raw
-- JSON messages, which encoding/json writes and reads.
pub mod Laws
use barq_control_plane.Base.{ℕ, String, ◌≡◌, Bool, true, Option, Result, ok, ◌>>=◌, ◌<>◌, len}
use barq_control_plane.Base.Decimal.{decimal}

pub record Record (V : Type 0) : Type 0 where
  pub collection : String
  pub key : String
  pub value : V
  pub version : ℕ

-- `expected` is `ExpectedVersion`, `none` for a nil pointer.
pub record Mutation (V : Type 0) : Type 0 where
  pub op : String
  pub collection : String
  pub key : String
  pub value : V
  pub expected : Option ℕ

abbrev pub mutation_put : String
mutation_put = "put"

abbrev pub mutation_delete : String
mutation_delete = "delete"

-- What encoding/json does at one Go type.
pub record Codec (V A : Type 0) : Type 0 where
  pub marshal : A → Result V
  pub unmarshal : V → Result A

-- What is relied on: what is written is read back, and is valid JSON.
pub record IsCodec {V A : Type 0} (valid : V → Bool) (c : Codec V A) : Type 0 where
  pub unmarshal-marshal : (a : A) (v : V) → c.marshal a ≡ ok v → c.unmarshal v ≡ ok a
  pub valid-marshal : (a : A) (v : V) → c.marshal a ≡ ok v → valid v ≡ true

module _ {V A : Type 0} (c : Codec V A) where
  abbrev pub encode : A → Result V
  encode a = c.marshal a

  abbrev pub decode : Record V → Result A
  decode r = c.unmarshal r.value

-- recordID
unfoldable pub record_id : String → String → String
record_id collection key = decimal (len collection) <> (":" <> (collection <> key))
