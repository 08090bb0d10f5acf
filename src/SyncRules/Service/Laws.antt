-- ===== src/SyncRules/Service/Laws.antt =====
-- What every operation of the service respects.
use barq_control_plane.Base.{
  ℕ, String, ◌≡◌, refl, is_blank, not, ltb, some, Result, ok, err, ◌>>=◌, inl, inr, Bool-cases,
  is_code, conflict,
}
use barq_control_plane.Base.Results.{Result-cases}
use barq_control_plane.Control.Types.{Record, encode, decode}
use barq_control_plane.Control.Store.{Store, get}
use barq_control_plane.Auth.Types.{Time}
use barq_control_plane.Auth.Tenants.{Scope}
use barq_control_plane.SyncRules.Types.{
  Revision, FlxRuleSet, FlxRulesResult, ApplyInput, PendingApply, Core, World, RulesEnv,
  revision_collection,
}
use barq_control_plane.SyncRules.Keys.{pending_key, is_final_apply_error, revision_key}
use barq_control_plane.SyncRules.Finish.{finish_apply, reconcile_scope}
use barq_control_plane.SyncRules.Finish.Preserved.{
  IsRespected, finish_apply-respects, reconcile_scope-respects,
}
use barq_control_plane.SyncRules.Service.{
  with_core, answer_current, current_rules, claimed, claim, answer_applied, settle_apply,
  apply_claimed, apply_rules, restore_from, restore, new_pending, change_of, applied_revision,
}

module _ {V C : Type 0} (env : RulesEnv V) (core : Core V C) (R : Store V → Store V → Type 0)
    (rule : IsRespected env R) where
  answer_current_store :
      (current : FlxRuleSet) (x : Result (Unit {0}) × World V C)
      → (answer_current env core current x).1 ≡ x.1
  answer_current_store current (ok u, w) = refl
  answer_current_store current (err e, w) = refl

  answer_applied_store :
      (result : FlxRulesResult) (x : Result (Unit {0}) × World V C)
      → (answer_applied env core result x).1 ≡ x.1
  answer_applied_store result (ok u, w) = refl
  answer_applied_store result (err e, w) = refl

  pub current_rules-respects :
      (clock : ℕ → Time) (scope : Scope) (request_id : String) (w : World V C)
      → R w.store (current_rules env core clock scope request_id w).1.store
  unfolding current_rules
  current_rules-respects clock scope request_id w =
      let answer = core.read_rules w.core (record { request_id = request_id; scope = scope }) in
      elim (Result-cases answer) [
        | inr (e, f) ↦ rw (f, current_rules) (rule.finished.same w.store)
        | inl (current, e) ↦ elim (Bool-cases (ltb 0 current.revision)) [
          | inr p ↦ rw (e, p, current_rules) (rule.finished.same w.store)
          | inl p ↦
              let x =
                with_core env core w.core
                  (reconcile_scope env (clock 0) (clock 1) scope current request_id w.store) in
              rw (e, p, current_rules)
                (rw (answer_current_store current x) (
                  reconcile_scope-respects env R rule.finished (clock 0) (clock 1) scope current
                    request_id w.store))
        ]
      ]

  claimed-respects :
      (scope : Scope) (pending : PendingApply) (s : Store V) (x : Result (Record V) × Store V)
      → R s x.1
      → R s (claimed env core scope pending x).1
  claimed-respects scope pending s (ok r, t) h = h
  claimed-respects scope pending s (err e, t) h = elim (Bool-cases (not (is_code e conflict))) [
    | inl p ↦ rw p h
    | inr p ↦ rw p h
  ]

  claim-respects :
      (scope : Scope) (pending : PendingApply) (s : Store V)
      → R s (claim env core scope pending s).1
  unfolding claim
  claim-respects scope pending s = elim (Result-cases (encode env.pendings pending)) [
    | inl (value, e) ↦
        rw (e, claim)
          (claimed-respects scope pending s _
            (rule.pending_put s (pending_key scope pending.request_id) value (some 0)))
    | inr (e, f) ↦ rw (f, claim) (rule.finished.same s)
  ]

  settle_apply-respects :
      (clock : ℕ → Time) (scope : Scope) (input : ApplyInput) (version : ℕ) (s : Store V)
      (x : Result FlxRulesResult × C)
      → R s (settle_apply env core clock scope input version s x).1.store
  unfolding settle_apply
  settle_apply-respects clock scope input version s (err e, c) =
      elim (Bool-cases (is_final_apply_error e)) [
        | inl p ↦
            rw p
              (rule.finished.pending_delete s (pending_key scope input.request_id) (some version))
        | inr p ↦ rw p (rule.finished.same s)
      ]
  settle_apply-respects clock scope input version s (ok result, c) =
      let revision = applied_revision (clock 1) scope input result.rule_set in
      let key = pending_key scope input.request_id in
      rw
        (answer_applied_store result
          (with_core env core c (finish_apply env (clock 2) revision key version s)))
        (finish_apply-respects env R rule.finished (clock 2) revision key version s)

  apply_claimed-respects :
      (clock : ℕ → Time) (scope : Scope) (input : ApplyInput) (c : C) (s : Store V)
      (x : Result (Record V) × Store V)
      → R s x.1
      → R s (apply_claimed env core clock scope input c x).1.store
  apply_claimed-respects clock scope input c s (err e, t) h = h
  apply_claimed-respects clock scope input c s (ok r, t) h = rule.finished.joined s t _ h (
      settle_apply-respects clock scope input r.version t
        (core.apply_rules c (change_of scope input)))

  pub apply_rules-respects :
      (clock : ℕ → Time) (scope : Scope) (input : ApplyInput) (w : World V C)
      → R w.store (apply_rules env core clock scope input w).1.store
  unfolding apply_rules
  apply_rules-respects clock scope input w = elim (Bool-cases (is_blank input.request_id)) [
    | inl p ↦ rw p (rule.finished.same w.store)
    | inr p ↦ rw p (
        apply_claimed-respects clock scope input w.core w.store _
          (claim-respects scope (new_pending (clock 0) scope input) w.store))
  ]

  restore_from-respects :
      (clock : ℕ → Time) (scope : Scope) (input : ApplyInput) (w : World V C) (r : Result Revision)
      → R w.store (restore_from env core clock scope input w r).1.store
  restore_from-respects clock scope input w (err e) = rule.finished.same w.store
  restore_from-respects clock scope input w (ok stored) =
      apply_rules-respects clock scope (record input { rules = stored.rules }) w

  pub restore-respects :
      (clock : ℕ → Time) (scope : Scope) (revision : ℕ) (input : ApplyInput) (w : World V C)
      → R w.store (restore env core clock scope revision input w).1.store
  unfolding restore
  restore-respects clock scope revision input w =
      restore_from-respects clock scope input w
        (get w.store revision_collection (revision_key scope revision) >>= decode env.revisions)
