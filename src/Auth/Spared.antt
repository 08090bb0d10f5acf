-- ===== src/Auth/Spared.antt =====
-- The records of other parts, and the operations on tenants.
use barq_control_plane.Base.{arith, String, ◌≡◌, refl, ◌==◌, false, Bool, Result, ok, err}
use barq_control_plane.Base.Results.{Gives}
use barq_control_plane.Control.Store.{Store, put}
use barq_control_plane.Control.Store.Spared.{Spared, Spared-same, put_spares}
use barq_control_plane.Auth.Types.{
  Time, CreateTenantInput, UpdateTenantInput, AuthEnv, Write, run_write, answer_with,
  tenant_collection,
}
use barq_control_plane.Auth.Types.Laws.{forget_answer_store}
use barq_control_plane.Auth.Tenants.{
  plan_create_tenant, create_tenant, plan_update_tenant, update_tenant, disable_tenant, disabling,
}

module _ {V A : Type 0} (c : String) (s : Store V) where
  answered_spares :
      {R : Type 0} (a : A) (x : Result R × Store V)
      → Spared c s x.1
      → Spared c s (answer_with a x).1
  answered_spares a (ok r, t) h = h
  answered_spares a (err e, t) h = h

  run_write_spares :
      (valid : V → Bool) (plan : Result (Write V A))
      → Gives (λ w. (w.collection == c) ≡ false) plan
      → Spared c s (run_write valid s plan).1
  run_write_spares valid (err e) away = Spared-same c s
  run_write_spares valid (ok w) away =
      answered_spares w.answer (put valid s w.collection w.key w.value w.expected)
        (put_spares valid c s w.collection w.key w.value w.expected (away w refl))

module _ {V : Type 0} (env : AuthEnv V) (c : String) (apart : (tenant_collection == c) ≡ false)
    (s : Store V) where
  pub create_tenant_spares :
      (now : Time) (input : CreateTenantInput) → Spared c s (create_tenant env now input s).1
  unfolding create_tenant plan_create_tenant
  create_tenant_spares now input =
      run_write_spares c s env.valid (plan_create_tenant env now input)
        (λ w planned. ground (arith, apart))

  pub update_tenant_spares :
      (now : Time) (id : String) (input : UpdateTenantInput)
      → Spared c s (update_tenant env now id input s).1
  unfolding update_tenant plan_update_tenant
  update_tenant_spares now id input =
      run_write_spares c s env.valid (plan_update_tenant env now id input s)
        (λ w planned. ground (arith, apart))

  pub disable_tenant_spares :
      (now : Time) (id : String) → Spared c s (disable_tenant env now id s).1
  unfolding disable_tenant
  disable_tenant_spares now id =
      rw (forget_answer_store (update_tenant env now id disabling s))
        (update_tenant_spares now id disabling)
