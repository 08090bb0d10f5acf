-- ===== src/Auth/Types.antt =====
-- The data of internal/auth: tenants, service keys, and the inputs of the operations. A time is the
-- number of nanoseconds since the zero time.
pub mod Laws
use barq_control_plane.Base.{
  ℕ, String, ◌≡◌, Bool, true, false, Option, none, some, List, [], ◌∷◌, Error, Result, ok, err,
  coded, unauthorized,
}
use barq_control_plane.Control.Types.{Codec, IsCodec}
use barq_control_plane.Control.Store.{Store, put}

abbrev pub Time : Type 0
Time = ℕ

abbrev pub api_key_collection : String
api_key_collection = "api_keys"

abbrev pub tenant_collection : String
tenant_collection = "tenants"

pub record Tenant : Type 0 where
  pub id : String
  pub name : String
  pub databases : List String
  pub enabled : Bool
  pub created_at : Time
  pub updated_at : Time

pub record CreateTenantInput : Type 0 where
  pub id : String
  pub name : String
  pub databases : List String

pub record UpdateTenantInput : Type 0 where
  pub name : Option String
  pub databases : Option (List String)
  pub enabled : Option Bool

pub record ServiceKey : Type 0 where
  pub id : String
  pub label : String
  pub digest : String
  pub tenant : String
  pub database : String
  pub actions : List String
  pub enabled : Bool
  pub created_at : Time
  pub updated_at : Time

pub record CreateServiceKeyInput : Type 0 where
  pub label : String
  pub tenant : String
  pub database : String
  pub actions : List String

pub record UpdateServiceKeyInput : Type 0 where
  pub label : Option String
  pub actions : Option (List String)
  pub enabled : Option Bool

pub record ServiceKeyView : Type 0 where
  pub id : String
  pub label : String
  pub tenant : String
  pub database : String
  pub actions : List String
  pub enabled : Bool
  pub created_at : Time
  pub updated_at : Time

pub record CreatedServiceKey : Type 0 where
  pub key : ServiceKeyView
  pub secret : String

-- What `rand.Read` and the encoders give one attempt of `newKey`: the secret and the id as texts.
pub record Draw : Type 0 where
  pub secret : String
  pub id : String

-- What the manager uses and does not implement: encoding/json, SHA-256 and the random source.
pub record AuthEnv (V : Type 0) : Type 0 where
  pub valid : V → Bool
  pub nil : V
  pub tenants : Codec V Tenant
  pub keys : Codec V ServiceKey
  pub digest : String → String
  pub draw : ℕ → Result Draw

pub record IsLawful {V : Type 0} (env : AuthEnv V) : Type 0 where
  pub tenants_law : IsCodec env.valid env.tenants
  pub keys_law : IsCodec env.valid env.keys
  pub nil_invalid : env.valid env.nil ≡ false

abbrev pub unauthorized_error : Error
unauthorized_error = coded unauthorized "invalid API key"

abbrev pub or_nil : {V : Type 0} → V → Result V → V
or_nil nil (ok v) = v
or_nil nil (err e) = nil

-- The single write that ends an operation, and the operation's answer if it succeeds.
pub record Write (V A : Type 0) : Type 0 where
  pub collection : String
  pub key : String
  pub value : V
  pub expected : Option ℕ
  pub answer : A

module _ {V A : Type 0} where
  abbrev pub answer_with : {R : Type 0} → A → Result R × Store V → Result A × Store V
  answer_with a (ok r, s) = (ok a, s)
  answer_with a (err e, s) = (err e, s)

  -- The error alone, of an operation whose answer is dropped.
  abbrev pub forget_answer : Result A × Store V → Result (Unit {0}) × Store V
  forget_answer (ok a, s) = (ok tt, s)
  forget_answer (err e, s) = (err e, s)

  -- Runs the write, or gives up before it.
  abbrev pub run_write : (V → Bool) → Store V → Result (Write V A) → Result A × Store V
  run_write valid s (err e) = (err e, s)
  run_write valid s (ok w) =
      answer_with w.answer (put valid s w.collection w.key w.value w.expected)
