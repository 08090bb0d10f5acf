-- ===== src/SyncRules/Service.antt =====
-- The operations of `Service` in internal/syncrules/service.go, over the control database and Core.
-- `clock` is what `s.now()` gives at each place of an operation that reads it.
pub mod Applied
pub mod Claims
pub mod Laws
use barq_control_plane.Base.{
  ℕ, suc, ◌+◌, ◌%◌, ◌<>◌, String, ◌==◌, is_blank, if◌then◌else◌, Bool, true, false, not, ◌&&◌, ◌||◌,
  eqb, leb, ltb, Option, none, some, List, [], ◌∷◌, Error, Result, ok, err, ◌>>=◌, is_code,
  not_found, conflict,
}
use barq_control_plane.Base.Sorting.{sort_by}
use barq_control_plane.Control.Types.{Record, encode, decode}
use barq_control_plane.Control.Checks.{invalid, conflict_error, word}
use barq_control_plane.Control.Store.{Store, get, list, put, delete}
use barq_control_plane.Auth.Types.{Time}
use barq_control_plane.Auth.Tenants.{Scope}
use barq_control_plane.SyncRules.Types.{
  Revision, FlxRuleSet, FlxRulesResult, FlxRulesReadRequest, FlxRulesChangeRequest,
  FlxRulesTestRequest, FlxRulesTestResult, Schema, ApplyInput, PendingApply, Core, World, RulesEnv,
  revision_collection, pending_collection,
}
use barq_control_plane.SyncRules.Keys.{
  scope_key, revision_key, pending_key, is_final_apply_error, same_pending, same_rules,
}
use barq_control_plane.SyncRules.Finish.{finish_apply, reconcile_scope}

-- The revision after this one, a uint64.
abbrev pub next_revision : ℕ → ℕ
next_revision n = (n + 1) % word

abbrev pub change_of : Scope → ApplyInput → FlxRulesChangeRequest
change_of scope input = record {
  request_id = input.request_id;
  scope = scope;
  expected_revision = input.expected_revision;
  target_revision = next_revision input.expected_revision;
  rules = input.rules;
}

abbrev pub new_pending : Time → Scope → ApplyInput → PendingApply
new_pending now scope input = record {
  scope = scope;
  expected_revision = input.expected_revision;
  target_revision = next_revision input.expected_revision;
  rules = input.rules;
  actor = input.actor;
  request_id = input.request_id;
  created_at = now;
}

abbrev pub applied_revision : Time → Scope → ApplyInput → FlxRuleSet → Revision
applied_revision now scope input set = record {
  scope = scope;
  revision = set.revision;
  hash = set.hash;
  rules = set.rules;
  actor = input.actor;
  request_id = input.request_id;
  source = "apply";
  created_at = now;
}

abbrev pub recovered_revision : PendingApply → FlxRuleSet → Revision
recovered_revision pending set = record {
  scope = pending.scope;
  revision = set.revision;
  hash = set.hash;
  rules = set.rules;
  actor = pending.actor;
  request_id = pending.request_id;
  source = "recovered";
  created_at = pending.created_at;
}

abbrev pub later_leb : Revision → Revision → Bool
later_leb a b = leb b.revision a.revision

module _ {V C : Type 0} (env : RulesEnv V) (core : Core V C) where
  abbrev pub with_core : C → Result (Unit {0}) × Store V → Result (Unit {0}) × World V C
  with_core c (r, s) = (r, record { store = s; core = c })

  -- Schema
  unfoldable pub schema : Scope → String → World V C → Result Schema
  schema scope request_id w =
      core.read_schema w.core (record { request_id = request_id; scope = scope })

  abbrev pub answer_current :
      FlxRuleSet → Result (Unit {0}) × World V C → Result FlxRuleSet × World V C
  answer_current current (ok u, w) = (ok current, w)
  answer_current current (err e, w) = (err e, w)

  -- Current
  unfoldable pub current_rules :
      (ℕ → Time) → Scope → String → World V C → Result FlxRuleSet × World V C
  unfolding reconcile_scope
  current_rules clock scope request_id w =
      elim (core.read_rules w.core (record { request_id = request_id; scope = scope })) [
        | err e ↦ (err e, w)
        | ok current ↦
            if ltb 0 current.revision
            then answer_current current (
                with_core w.core
                  (reconcile_scope env (clock 0) (clock 1) scope current request_id w.store))
            else (ok current, w)
      ]

  -- Service.Plan
  unfoldable pub plan_rules : Scope → ApplyInput → World V C → Result FlxRulesResult
  plan_rules scope input w = core.plan_rules w.core (change_of scope input)

  abbrev pub used_error : Error
  used_error = conflict_error "request ID was already used for another sync-rule apply"

  -- The pending record that is there already must be that of the same request.
  unfoldable pub same_request : PendingApply → Result (Record V) → Result (Record V)
  unfolding same_pending
  same_request pending (err e) = err e
  same_request pending (ok r) = elim (decode env.pendings r) [
    | err e ↦ err used_error
    | ok stored ↦ if same_pending env stored pending then ok r else err used_error
  ]

  -- The pending record of a request: created, or found by a request that is repeated.
  abbrev pub claimed :
      Scope → PendingApply → Result (Record V) × Store V → Result (Record V) × Store V
  claimed scope pending (ok r, s) = (ok r, s)
  claimed scope pending (err e, s) = if not (is_code e conflict) then (err e, s) else (
    same_request pending (get s pending_collection (pending_key scope pending.request_id)),
    s,
  )

  unfoldable pub claim : Scope → PendingApply → Store V → Result (Record V) × Store V
  unfolding same_request pending_key
  claim scope pending s = elim (encode env.pendings pending) [
    | err e ↦ (err e, s)
    | ok value ↦
        claimed scope pending
          (put env.valid s pending_collection (pending_key scope pending.request_id) value (some 0))
  ]

  abbrev pub answer_applied :
      FlxRulesResult → Result (Unit {0}) × World V C → Result FlxRulesResult × World V C
  answer_applied result (ok u, w) = (ok result, w)
  answer_applied result (err e, w) = (err e, w)

  -- What is done with Core's answer; the result of the deletion is dropped.
  unfoldable pub settle_apply :
      (ℕ → Time)
      → Scope
      → ApplyInput
      → ℕ
      → Store V
      → Result FlxRulesResult × C
      → Result FlxRulesResult × World V C
  unfolding finish_apply is_final_apply_error pending_key
  settle_apply clock scope input version s (err e, c) =
      if is_final_apply_error e
      then (
        err e,
        record {
          store =
              (delete env.valid env.nil s pending_collection (pending_key scope input.request_id)
                (some version)).1;
          core = c;
        },
      )
      else (err e, record { store = s; core = c })
  settle_apply clock scope input version s (ok result, c) = answer_applied result (
      with_core c (
        finish_apply env (clock 2) (applied_revision (clock 1) scope input result.rule_set)
          (pending_key scope input.request_id) version s))

  abbrev pub apply_claimed :
      (ℕ → Time)
      → Scope
      → ApplyInput
      → C
      → Result (Record V) × Store V
      → Result FlxRulesResult × World V C
  apply_claimed clock scope input c (err e, s) = (err e, record { store = s; core = c })
  apply_claimed clock scope input c (ok r, s) =
      settle_apply clock scope input r.version s (core.apply_rules c (change_of scope input))

  -- Apply
  unfoldable pub apply_rules :
      (ℕ → Time) → Scope → ApplyInput → World V C → Result FlxRulesResult × World V C
  unfolding claim settle_apply
  apply_rules clock scope input w =
      if is_blank input.request_id
      then (err (invalid "request ID is required"), w)
      else apply_claimed clock scope input w.core
          (claim scope (new_pending (clock 0) scope input) w.store)

  -- Test
  unfoldable pub test_rules : Scope → FlxRulesTestRequest V → World V C → Result FlxRulesTestResult
  test_rules scope input w = core.test_rules w.core (record input { scope = scope })

  unfoldable pub decode_revisions : List (Record V) → Result (List Revision)
  decode_revisions [] = ok []
  decode_revisions (r ∷ rs) = do
    revision ← decode env.revisions r
    revisions ← decode_revisions rs
    ok (revision ∷ revisions)

  -- History
  unfoldable pub history : Scope → World V C → Result (List Revision)
  unfolding decode_revisions sort_by scope_key
  history scope w = do
    records ← list w.store revision_collection (scope_key scope <> "/")
    revisions ← decode_revisions records
    ok (sort_by later_leb revisions)

  abbrev pub restore_from :
      (ℕ → Time)
      → Scope
      → ApplyInput
      → World V C
      → Result Revision
      → Result FlxRulesResult × World V C
  restore_from clock scope input w (err e) = (err e, w)
  restore_from clock scope input w (ok stored) =
      apply_rules clock scope (record input { rules = stored.rules }) w

  -- Restore
  unfoldable pub restore :
      (ℕ → Time) → Scope → ℕ → ApplyInput → World V C → Result FlxRulesResult × World V C
  unfolding apply_rules revision_key
  restore clock scope revision input w =
      restore_from clock scope input w
        (get w.store revision_collection (revision_key scope revision) >>= decode env.revisions)
