-- ===== src/Control/Store/Steps.antt =====
-- Operations on a store, one after the other: the first error ends them, and what was written stays.
use barq_control_plane.Base.{Bool, List, Result, ok, err}
use barq_control_plane.Control.Types.{Mutation}
use barq_control_plane.Control.Store.{Store, apply}

module _ {V : Type 0} where
  abbrev pub and_then :
      {A B : Type 0} → Result A × Store V → (A → Store V → Result B × Store V) → Result B × Store V
  and_then (ok a, s) f = f a s
  and_then (err e, s) f = (err e, s)

  -- The transaction that ends an operation, or the error that came before it.
  abbrev pub run_apply :
      {A : Type 0} → (V → Bool) → Store V → Result (List (Mutation V) × A) → Result A × Store V
  run_apply valid s (err e) = (err e, s)
  run_apply valid s (ok (ms, a)) = and_then (apply valid s ms) λ rs t. (ok a, t)
