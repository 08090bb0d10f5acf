-- ===== src/SyncRules/Finish/Preserved.antt =====
-- What holds between the stores before and after recording a revision, if it holds for each write:
-- the proofs about `finishApply` and `reconcile` that several properties share.
use barq_control_plane.Base.{
  ℕ, String, ◌≡◌, ◌==◌, not, Option, some, List, Result, ok, err, inl, inr, Bool-cases, is_code,
  not_found, conflict,
}
use barq_control_plane.Base.Results.{Result-cases}
use barq_control_plane.Control.Types.{Record, Mutation, encode, decode}
use barq_control_plane.Control.Store.{Store, get, put, delete, apply}
use barq_control_plane.Auth.Types.{Time}
use barq_control_plane.Auth.Tenants.{Scope}
use barq_control_plane.SyncRules.Types.{
  Revision, FlxRuleSet, RulesEnv, revision_collection, pending_collection,
}
use barq_control_plane.SyncRules.Keys.{revision_key}
use barq_control_plane.SyncRules.Finish.{
  write_head, plan_finish, finish_known, finish_from, finish_apply, then_head, record_current,
  confirm_current, reconcile_from, reconcile_scope, recovered,
}
use barq_control_plane.SyncRules.Finish.Heads.{and_then_store}

-- A relation between stores that every write respects which records a revision.
pub record IsFinished {V : Type 0} (env : RulesEnv V) (R : Store V → Store V → Type 0)
    : Type 0 where
  pub same : (s : Store V) → R s s
  pub joined : (s t u : Store V) → R s t → R t u → R s u
  pub pending_delete :
      (s : Store V) (key : String) (expected : Option ℕ)
      → R s (delete env.valid env.nil s pending_collection key expected).1
  pub revision_put :
      (s : Store V) (key : String) (value : V)
      → R s (put env.valid s revision_collection key value (some 0)).1
  pub head_write :
      (now : Time) (scope : Scope) (revision : ℕ) (hash : String) (s : Store V)
      → R s (write_head env now scope revision hash s).1
  pub finish :
      (now : Time) (revision : Revision) (key : String) (version : ℕ) (s : Store V)
      (ms : List (Mutation V))
      → plan_finish env now revision key version s ≡ ok ms
      → R s (apply env.valid s ms).1

-- One that every write of the service respects.
pub record IsRespected {V : Type 0} (env : RulesEnv V) (R : Store V → Store V → Type 0)
    : Type 0 where
  pub finished : IsFinished env R
  pub pending_put :
      (s : Store V) (key : String) (value : V) (expected : Option ℕ)
      → R s (put env.valid s pending_collection key value expected).1

module _ {V : Type 0} (env : RulesEnv V) (R : Store V → Store V → Type 0)
    (rule : IsFinished env R) where
  finish_known-respects :
      (now : Time) (revision : Revision) (key : String) (version : ℕ) (s : Store V)
      (r : Result Revision)
      → R s (finish_known env now revision key version s r).1
  unfolding finish_known
  finish_known-respects now revision key version s (err e) = rule.same s
  finish_known-respects now revision key version s (ok stored) =
      let t = (delete env.valid env.nil s pending_collection key (some version)).1 in
      elim (Bool-cases (not (stored.hash == revision.hash))) [
        | inl p ↦ rw p (rule.same s)
        | inr p ↦ rw p (
            rule.joined s t _ (rule.pending_delete s key (some version))
              (rule.head_write now revision.scope revision.revision revision.hash t))
      ]

  pub finish_apply-respects :
      (now : Time) (revision : Revision) (key : String) (version : ℕ) (s : Store V)
      → R s (finish_apply env now revision key version s).1
  unfolding finish_apply finish_from
  finish_apply-respects now revision key version s =
      elim (Result-cases
        (get s revision_collection (revision_key revision.scope revision.revision))) [
          | inl (r, e) ↦
              rw (e, finish_apply)
                (finish_known-respects now revision key version s (decode env.revisions r))
          | inr (e, f) ↦ elim (Bool-cases (not (is_code e not_found))) [
            | inl p ↦ rw (f, p, finish_apply) (rule.same s)
            | inr p ↦ elim (Result-cases (plan_finish env now revision key version s)) [
              | inl (ms, planned) ↦
                  rw (f, p, planned, finish_apply)
                    (rw (and_then_store (apply env.valid s ms))
                      (rule.finish now revision key version s ms planned))
              | inr (e', failed) ↦ rw (f, p, failed, finish_apply) (rule.same s)
            ]
          ]
        ]

  confirm_current-respects :
      (later : Time) (scope : Scope) (current : FlxRuleSet) (s : Store V) (r : Result Revision)
      → R s (confirm_current env later scope current s r).1
  confirm_current-respects later scope current s (err e) = rule.same s
  confirm_current-respects later scope current s (ok stored) =
      elim (Bool-cases (not (stored.hash == current.hash))) [
        | inl p ↦ rw p (rule.same s)
        | inr p ↦ rw p (rule.head_write later scope current.revision current.hash s)
      ]

  then_head-respects :
      (later : Time) (scope : Scope) (current : FlxRuleSet) (s : Store V)
      (x : Result (Record V) × Store V)
      → R s x.1
      → R s (then_head env later scope current x).1
  then_head-respects later scope current s (ok r, t) grown =
      rule.joined s t _ grown (rule.head_write later scope current.revision current.hash t)
  then_head-respects later scope current s (err e, t) grown =
      elim (Bool-cases (is_code e conflict)) [
        | inl p ↦
            rw p (
              rule.joined s t _ grown (rule.head_write later scope current.revision current.hash t))
        | inr p ↦ rw p grown
      ]

  record_current-respects :
      (now later : Time) (scope : Scope) (current : FlxRuleSet) (s : Store V) (r : Result V)
      → R s (record_current env now later scope current s r).1
  unfolding record_current
  record_current-respects now later scope current s (err e) = rule.same s
  record_current-respects now later scope current s (ok value) =
      let key = revision_key scope current.revision in
      then_head-respects later scope current s
        (put env.valid s revision_collection key value (some 0)) (rule.revision_put s key value)

  pub reconcile_scope-respects :
      (now later : Time) (scope : Scope) (current : FlxRuleSet) (request_id : String) (s : Store V)
      → R s (reconcile_scope env now later scope current request_id s).1
  unfolding reconcile_scope reconcile_from
  reconcile_scope-respects now later scope current request_id s =
      elim (Result-cases (get s revision_collection (revision_key scope current.revision))) [
        | inl (r, e) ↦
            rw (e, reconcile_scope)
              (confirm_current-respects later scope current s (decode env.revisions r))
        | inr (e, f) ↦ elim (Bool-cases (not (is_code e not_found))) [
          | inl p ↦ rw (f, p, reconcile_scope) (rule.same s)
          | inr p ↦
              rw (f, p, reconcile_scope)
                (record_current-respects now later scope current s
                  (encode env.revisions (recovered now scope current request_id)))
        ]
      ]
