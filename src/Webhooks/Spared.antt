-- ===== src/Webhooks/Spared.antt =====
-- The records of other parts, and the operations on webhooks.
use barq_control_plane.Base.{
  arith, ℕ, String, ◌≡◌, ◌==◌, ◌<>◌, suc, false, not, some, List, [], ◌∷◌, Result, ok, err, inl,
  inr, Bool-cases,
}
use barq_control_plane.Base.Results.{Result-cases}
use barq_control_plane.Control.Types.{Record, encode, decode}
use barq_control_plane.Control.Store.{Store, get, list, put}
use barq_control_plane.Control.Store.Spared.{
  Spared, Spared-same, Spared-joined, put_spares, then_spares, run_apply_spares,
}
use barq_control_plane.Auth.Types.{Time, or_nil}
use barq_control_plane.Webhooks.Types.{
  Registration, HookEnv, webhook_collection, revision_collection, delivery_collection,
}
use barq_control_plane.Webhooks.Deliver.{replayed}
use barq_control_plane.Webhooks.Queue.{Progress, stop, replay_all, replay}
use barq_control_plane.Webhooks.Service.{
  plan_register, register, plan_update, update, disable, plan_rotate, rotate_secret, get_hook,
}

-- No collection that these operations write.
pub record IsNoHooks (c : String) : Type 0 where
  pub no_hook : (webhook_collection == c) ≡ false
  pub no_revision : (revision_collection == c) ≡ false
  pub no_delivery : (delivery_collection == c) ≡ false

module _ {V : Type 0} (env : HookEnv V) (c : String) (apart : IsNoHooks c) (s : Store V) where
  pub register_spares :
      (now : Time) (input : Registration V) → Spared c s (register env now input s).1
  unfolding register plan_register
  register_spares now input =
      run_apply_spares env.valid c s (plan_register env now input)
        (λ (ms, a) planned. ground (arith, apart.no_hook, apart.no_revision))

  pub update_spares :
      (now : Time) (id : String) (input : Registration V) → Spared c s (update env now id input s).1
  unfolding update plan_update
  update_spares now id input =
      run_apply_spares env.valid c s (plan_update env now id input s)
        (λ (ms, a) planned. ground (arith, apart.no_hook, apart.no_revision))

  pub rotate_secret_spares :
      (now later : Time) (id : String) → Spared c s (rotate_secret env now later id s).1
  unfolding rotate_secret plan_rotate
  rotate_secret_spares now later id =
      run_apply_spares env.valid c s (plan_rotate env now later id s)
        (λ (ms, a) planned. ground (arith, apart.no_hook, apart.no_revision))

  pub disable_spares : (now : Time) (id : String) → Spared c s (disable env now id s).1
  unfolding disable
  disable_spares now id = elim (Result-cases (get s webhook_collection id)) [
    | inr (e, f) ↦ rw (f, disable) (Spared-same c s)
    | inl (r, e) ↦ elim (Result-cases (decode env.hooks r)) [
      | inr (e', f) ↦ rw (e, f, disable) (Spared-same c s)
      | inl (hook, reads) ↦
          let value =
            or_nil env.nil (encode env.hooks (record hook { enabled = false; updated_at = now })) in
          rw (e, reads, disable)
            (then_spares env.valid c s
              (put env.valid s webhook_collection id value (some r.version)) (λ _. ok tt)
              (put_spares env.valid c s webhook_collection id value (some r.version) apart.no_hook))
    ]
  ]

module _ {V : Type 0} (env : HookEnv V) (c : String) (apart : IsNoHooks c) where
  replayed_spares :
      (clock : ℕ → Time) (n : ℕ) (rs : List (Record V)) (s t : Store V) (x : Result (Record V))
      → Spared c s t
      → ((m : ℕ) → Spared c t (replay_all env clock m rs t).1)
      → Spared c s
          (elim x as (λ y. Progress × Store V) [
            | err e ↦ stop n e t
            | ok stored ↦ replay_all env clock (suc n) rs t
          ]).1
  replayed_spares clock n rs s t (err e) written later = written
  replayed_spares clock n rs s t (ok stored) written later =
      Spared-joined c s t _ written (later (suc n))

  replay_all_spares :
      (clock : ℕ → Time) (n : ℕ) (rs : List (Record V)) (s : Store V)
      → Spared c s (replay_all env clock n rs s).1
  unfolding replay_all
  replay_all_spares clock n [] s = Spared-same c s
  replay_all_spares clock n (r ∷ rs) s = elim (Result-cases (decode env.deliveries r)) [
    | inr (e, f) ↦ rw (f, replay_all) (Spared-same c s)
    | inl (d, reads) ↦ elim (Bool-cases (not (d.status == "dead"))) [
      | inl p ↦ rw (reads, p, replay_all) (replay_all_spares clock n rs s)
      | inr p ↦
          let value = or_nil env.nil (encode env.deliveries (replayed (clock n) d)) in
          let written = put env.valid s delivery_collection r.key value (some r.version) in
          rw (reads, p, replay_all)
            (replayed_spares clock n rs s written.1 written.0
              (put_spares env.valid c s delivery_collection r.key value (some r.version)
                apart.no_delivery)
              λ m. replay_all_spares clock m rs written.1)
    ]
  ]

  pub replay_spares :
      (clock : ℕ → Time) (id : String) (s : Store V) → Spared c s (replay env clock id s).1
  unfolding replay
  replay_spares clock id s = elim (Result-cases (get_hook env s id)) [
    | inr (e, f) ↦ rw (f, replay) (Spared-same c s)
    | inl (hook, found) ↦ elim (Result-cases (list s delivery_collection (id <> "/"))) [
      | inr (e, f) ↦ rw (found, f, replay) (Spared-same c s)
      | inl (rs, e) ↦ rw (found, e, replay) (replay_all_spares clock 0 rs s)
    ]
  ]
