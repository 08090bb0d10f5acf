-- ===== src/Base/Results.antt =====
-- Go's `(value, error)` results as values. A `dataplane.Error` carries a code, and an error of
-- `fmt.Errorf` or of a library has only its message.
-- Source: internal/dataplane/dataplane.go.
use Prim.Native.String.{String, ◌++◌}
use mathlib.Core.Path.{◌≡◌, refl}
use mathlib.Core.Bool.{Bool, true, false}
use mathlib.Core.Logic.{◌⊎◌, inl, inr}

pub data Code : Type 0 where
  invalid_argument not_found conflict precondition_failed unauthorized forbidden : Code
  unavailable internal resource_exceeded : Code

pub data Error : Type 0 where
  coded : Code → String → Error
  plain : String → Error

-- The wire text of a code.
unfoldable pub code_text : Code → String
code_text invalid_argument = "invalid_argument"
code_text not_found = "not_found"
code_text conflict = "conflict"
code_text precondition_failed = "precondition_failed"
code_text unauthorized = "unauthorized"
code_text forbidden = "forbidden"
code_text unavailable = "unavailable"
code_text internal = "internal"
code_text resource_exceeded = "resource_exceeded"

abbrev pub same_code : Code → Code → Bool
same_code invalid_argument invalid_argument = true
same_code not_found not_found = true
same_code conflict conflict = true
same_code precondition_failed precondition_failed = true
same_code unauthorized unauthorized = true
same_code forbidden forbidden = true
same_code unavailable unavailable = true
same_code internal internal = true
same_code resource_exceeded resource_exceeded = true
same_code _ _ = false

-- `IsCode(err, code)` at an error that is not nil.
abbrev pub is_code : Error → Code → Bool
is_code (coded c m) k = same_code c k
is_code (plain m) k = false

-- `fmt.Errorf` with `%w`: the code, if there is one, can still be found.
abbrev pub wrap : String → Error → Error
wrap prefix (coded c m) = coded c (prefix ++ m)
wrap prefix (plain m) = plain (prefix ++ m)

pub data Result {ℓ} (A : Type ℓ) : Type ℓ where
  ok : (value : A) → Result A
  err : (failure : Error) → Result A

-- Go on with the value, or return the error.
abbrev pub ◌>>=◌ {ℓ κ} :
    {X : Type ℓ} {Y : Type κ} (first : Result X) (next : X → Result Y) → Result Y
err failure >>= next = err failure
ok value >>= next = next value

-- `if !test { return failure }`
abbrev pub ensure : (test : Bool) (failure : Error) → Result (Unit {0})
ensure false failure = err failure
ensure true failure = ok tt

abbrev pub ◌>>◌ {κ} : {Y : Type κ} (check : Result (Unit {0})) (rest : Result Y) → Result Y
check >> rest = check >>= λ passed. rest

infixl 5 ◌>>=◌ ◌>>◌
abbrev pub is_ok {ℓ} : {A : Type ℓ} → Result A → Bool
is_ok (ok a) = true
is_ok (err e) = false

pub Result-cases {ℓ} :
    {A : Type ℓ} (r : Result A) → ((a : A) × (r ≡ ok a)) ⊎ ((e : Error) × (r ≡ err e))
Result-cases (ok a) = inl (a, refl)
Result-cases (err e) = inr (e, refl)

-- A chain that ended well had a first value, and went on well from there.
pub >>=-eq-ok {ℓ κ} :
    {X : Type ℓ} {Y : Type κ} (first : Result X) (next : X → Result Y) {y : Y}
    → (first >>= next) ≡ ok y
    → (x : X) × (first ≡ ok x) × (next x ≡ ok y)
>>=-eq-ok (err failure) next h = cc
>>=-eq-ok (ok x) next h = (x, refl, h)

-- The same for a goal: the rest of the proof has the value and the two equations.
pub bind_elim {ℓ κ μ} :
    {A : Type ℓ} {B : Type κ} {P : Type μ} (m : Result A) (f : A → Result B) {b : B}
    → (m >>= f) ≡ ok b
    → ((a : A) → m ≡ ok a → f a ≡ ok b → P)
    → P
bind_elim (ok a) f h go = go a refl h
bind_elim (err e) f h go = cc

-- What a successful `ok` returned.
pub ok-injective {ℓ} : {A : Type ℓ} {a b : A} → ok a ≡ ok b → a ≡ b
ok-injective h = cc

-- A guard that was passed held.
pub ensure_elim {ℓ μ} :
    {B : Type ℓ} {P : Type μ} (b : Bool) (e : Error) (rest : Result B) {v : B}
    → (ensure b e >> rest) ≡ ok v
    → (b ≡ true → rest ≡ ok v → P)
    → P
ensure_elim true e rest h go = go refl h
ensure_elim false e rest h go = cc

-- If there is a value, it has this property.
abbrev pub Gives {ℓ} : {A : Type ℓ} → (A → Type 0) → Result A → Type ℓ
Gives {A = A} P x = (a : A) → x ≡ ok a → P a
