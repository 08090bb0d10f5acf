-- ===== src/SyncRules/Finish.antt =====
-- How an applied revision is recorded: `finishApply`, `writeHead` and `reconcile` of
-- internal/syncrules/service.go. `now` is the reading of `s.now()`.
pub mod Heads
pub mod Recorded
pub mod Preserved
pub mod Frame
pub mod Grows
pub mod History
use barq_control_plane.Base.{
  ℕ, String, ◌==◌, if◌then◌else◌, Bool, true, false, not, ◌&&◌, ◌||◌, eqb, ltb, Option, none, some,
  List, [], ◌∷◌, ◌++◌, Error, Result, ok, err, ◌>>=◌, is_code, not_found, conflict,
}
use barq_control_plane.Control.Types.{Record, Mutation, encode, decode}
use barq_control_plane.Control.Checks.{conflict_error}
use barq_control_plane.Control.Store.{Store, get, put, delete, put_of, delete_of, apply}
use barq_control_plane.Control.Store.Steps.{and_then}
use barq_control_plane.Auth.Types.{Time}
use barq_control_plane.Auth.Tenants.{Scope}
use barq_control_plane.SyncRules.Types.{
  Revision, Head, FlxRuleSet, RulesEnv, revision_collection, head_collection, pending_collection,
}
use barq_control_plane.SyncRules.Keys.{scope_key, revision_key}

abbrev pub head_of : Time → Scope → ℕ → String → Head
head_of now scope revision hash = record {
  scope = scope;
  revision = revision;
  hash = hash;
  updated_at = now;
}

abbrev pub recovered : Time → Scope → FlxRuleSet → String → Revision
recovered now scope current request_id = record {
  scope = scope;
  revision = current.revision;
  hash = current.hash;
  rules = current.rules;
  actor = "";
  request_id = request_id;
  source = "recovered";
  created_at = now;
}

-- What is to be done about the head: nothing, or a write over the version that was read.
pub data HeadPlan : Type 0 where
  keep_head : HeadPlan
  write_over : ℕ → HeadPlan

module _ {V : Type 0} (env : RulesEnv V) where
  -- The tests on the head that was read, which both `writeHead` and `finishApply` make.
  unfoldable pub plan_head : ℕ → String → Result (Record V) → Result HeadPlan
  plan_head revision hash (err e) = if is_code e not_found then ok (write_over 0) else err e
  plan_head revision hash (ok r) = do
    stored ← decode env.heads r
    (if ltb revision stored.revision || (eqb stored.revision revision && stored.hash == hash)
        then ok keep_head
        else if eqb stored.revision revision
        then err (conflict_error "sync-rule head has another hash")
        else ok (write_over r.version))

  unfoldable pub put_head : Scope → V → Store V → Result HeadPlan → Result (Unit {0}) × Store V
  unfolding scope_key
  put_head scope value s (err e) = (err e, s)
  put_head scope value s (ok keep_head) = (ok tt, s)
  put_head scope value s (ok (write_over version)) =
      and_then (put env.valid s head_collection (scope_key scope) value (some version))
        λ r t. (ok tt, t)

  -- writeHead
  unfoldable pub write_head : Time → Scope → ℕ → String → Store V → Result (Unit {0}) × Store V
  unfolding plan_head put_head scope_key
  write_head now scope revision hash s = elim (encode env.heads (head_of now scope revision hash)) [
    | err e ↦ (err e, s)
    | ok value ↦
        put_head scope value s (plan_head revision hash (get s head_collection (scope_key scope)))
  ]

  abbrev pub head_put : Scope → V → ℕ → Mutation V
  head_put scope value version = put_of head_collection (scope_key scope) value (some version)

  -- The transaction that ends `finishApply`.
  abbrev pub finish_mutations : Revision → String → ℕ → V → V → HeadPlan → List (Mutation V)
  finish_mutations revision pending_key version value head keep_head =
      put_of revision_collection (revision_key revision.scope revision.revision) value (some 0)
      ∷ delete_of env.nil pending_collection pending_key (some version)
      ∷ []
  finish_mutations revision pending_key version value head (write_over expected) =
      put_of revision_collection (revision_key revision.scope revision.revision) value (some 0)
      ∷ delete_of env.nil pending_collection pending_key (some version)
      ∷ head_put revision.scope head expected
      ∷ []

  unfoldable pub plan_finish : Time → Revision → String → ℕ → Store V → Result (List (Mutation V))
  unfolding plan_head revision_key scope_key
  plan_finish now revision pending_key version s = do
    value ← encode env.revisions revision
    head ← encode env.heads (head_of now revision.scope revision.revision revision.hash)
    plan ←
        plan_head revision.revision revision.hash (get s head_collection (scope_key revision.scope))
    ok (finish_mutations revision pending_key version value head plan)

  abbrev pub run_mutations : Store V → Result (List (Mutation V)) → Result (Unit {0}) × Store V
  run_mutations s (err e) = (err e, s)
  run_mutations s (ok ms) = and_then (apply env.valid s ms) λ rs t. (ok tt, t)

  -- Where the revision is stored already; the result of the deletion is dropped.
  unfoldable pub finish_known :
      Time → Revision → String → ℕ → Store V → Result Revision → Result (Unit {0}) × Store V
  unfolding write_head
  finish_known now revision pending_key version s (err e) = (err e, s)
  finish_known now revision pending_key version s (ok stored) =
      if not (stored.hash == revision.hash)
      then (err (conflict_error "sync-rule revision already has another hash"), s)
      else write_head now revision.scope revision.revision revision.hash
          (delete env.valid env.nil s pending_collection pending_key (some version)).1

  unfoldable pub finish_from :
      Time → Revision → String → ℕ → Store V → Result (Record V) → Result (Unit {0}) × Store V
  unfolding finish_known plan_finish
  finish_from now revision pending_key version s (ok r) =
      finish_known now revision pending_key version s (decode env.revisions r)
  finish_from now revision pending_key version s (err e) =
      if not (is_code e not_found)
      then (err e, s)
      else run_mutations s (plan_finish now revision pending_key version s)

  -- finishApply
  unfoldable pub finish_apply : Time → Revision → String → ℕ → Store V → Result (Unit {0}) × Store V
  unfolding finish_from revision_key
  finish_apply now revision pending_key version s =
      finish_from now revision pending_key version s
        (get s revision_collection (revision_key revision.scope revision.revision))

  -- A revision that Core has and the history lacks; a conflict means that it was written meanwhile.
  abbrev pub then_head :
      Time → Scope → FlxRuleSet → Result (Record V) × Store V → Result (Unit {0}) × Store V
  then_head later scope current (ok r, s) = write_head later scope current.revision current.hash s
  then_head later scope current (err e, s) =
      if is_code e conflict
      then write_head later scope current.revision current.hash s
      else (err e, s)

  unfoldable pub record_current :
      Time → Time → Scope → FlxRuleSet → Store V → Result V → Result (Unit {0}) × Store V
  unfolding write_head revision_key
  record_current now later scope current s (err e) = (err e, s)
  record_current now later scope current s (ok value) =
      then_head later scope current
        (put env.valid s revision_collection (revision_key scope current.revision) value (some 0))

  abbrev pub confirm_current :
      Time → Scope → FlxRuleSet → Store V → Result Revision → Result (Unit {0}) × Store V
  confirm_current later scope current s (err e) = (err e, s)
  confirm_current later scope current s (ok stored) =
      if not (stored.hash == current.hash)
      then (err (conflict_error "Core sync-rule revision does not match control history"), s)
      else write_head later scope current.revision current.hash s

  unfoldable pub reconcile_from :
      Time
      → Time
      → Scope
      → FlxRuleSet
      → String
      → Store V
      → Result (Record V)
      → Result (Unit {0}) × Store V
  unfolding record_current write_head
  reconcile_from now later scope current request_id s (ok r) =
      confirm_current later scope current s (decode env.revisions r)
  reconcile_from now later scope current request_id s (err e) =
      if not (is_code e not_found)
      then (err e, s)
      else record_current now later scope current s
          (encode env.revisions (recovered now scope current request_id))

  -- reconcile
  unfoldable pub reconcile_scope :
      Time → Time → Scope → FlxRuleSet → String → Store V → Result (Unit {0}) × Store V
  unfolding reconcile_from revision_key
  reconcile_scope now later scope current request_id s =
      reconcile_from now later scope current request_id s
        (get s revision_collection (revision_key scope current.revision))
