-- ===== src/SyncRules/Reconcile.antt =====
-- Taking interrupted requests up again: `Reconcile` of internal/syncrules/service.go.
pub mod Laws
pub mod Shrinks
pub mod Removed
pub mod Drained
use barq_control_plane.Base.{
  ℕ, String, if◌then◌else◌, Bool, true, false, not, ◌&&◌, ◌||◌, eqb, leb, Option, none, some, List,
  [], ◌∷◌, Error, Result, ok, err, is_code, not_found,
}
use barq_control_plane.Control.Types.{Record, decode}
use barq_control_plane.Control.Checks.{conflict_error}
use barq_control_plane.Control.Store.{Store, list, delete}
use barq_control_plane.Auth.Types.{Time}
use barq_control_plane.SyncRules.Types.{
  FlxRuleSet, FlxRulesResult, PendingApply, Core, World, RulesEnv, pending_collection,
}
use barq_control_plane.SyncRules.Keys.{same_rules}
use barq_control_plane.SyncRules.Finish.{finish_apply}
use barq_control_plane.SyncRules.Service.{recovered_revision}

module _ {V C : Type 0} (env : RulesEnv V) (core : Core V C) where
  -- Is the request what Core has at its target revision?
  abbrev pub is_target : PendingApply → FlxRuleSet → Bool
  is_target pending current =
      eqb current.revision pending.target_revision && same_rules env current.rules pending.rules

  abbrev pub rules_of : Result FlxRulesResult × C → Result FlxRuleSet × C
  rules_of (err e, c) = (err e, c)
  rules_of (ok result, c) = (ok result.rule_set, c)

  -- Core's rules for the request, after it was applied again if Core does not have it yet.
  abbrev pub caught_up : C → PendingApply → Result FlxRuleSet → Result FlxRuleSet × C
  caught_up c pending (err e) = (err e, c)
  caught_up c pending (ok current) =
      if eqb current.revision pending.expected_revision
      then rules_of (
          core.apply_rules c (record {
            request_id = pending.request_id;
            scope = pending.scope;
            expected_revision = pending.expected_revision;
            target_revision = pending.target_revision;
            rules = pending.rules;
          }))
      else (ok current, c)

  unfoldable pub catch_up : C → PendingApply → Result FlxRuleSet × C
  catch_up c pending =
      caught_up c pending
        (core.read_rules c (record { request_id = pending.request_id; scope = pending.scope }))

  abbrev pub unless_missing : Result (Unit {0}) × Store V → Result (Unit {0}) × Store V
  unless_missing (ok u, s) = (ok tt, s)
  unless_missing (err e, s) = if is_code e not_found then (ok tt, s) else (err e, s)

  -- What is done with a request by what Core has.
  unfoldable pub resolve :
      Time → Record V → PendingApply → FlxRuleSet → Store V → Result (Unit {0}) × Store V
  unfolding same_rules finish_apply
  resolve now r pending current s =
      if leb pending.target_revision current.revision && not (is_target pending current)
      then unless_missing (delete env.valid env.nil s pending_collection r.key (some r.version))
      else if not (is_target pending current)
      then (err (conflict_error "interrupted sync-rule apply no longer matches Core"), s)
      else finish_apply env now (recovered_revision pending current) r.key r.version s

  abbrev pub resolved :
      Time
      → Record V
      → PendingApply
      → Store V
      → Result FlxRuleSet × C
      → Result (Unit {0}) × World V C
  resolved now r pending s (err e, c) = (err e, record { store = s; core = c })
  resolved now r pending s (ok current, c) =
      let (answer, t) = resolve now r pending current s in (answer, record { store = t; core = c })

  abbrev pub resume :
      Time → Record V → World V C → Result PendingApply → Result (Unit {0}) × World V C
  resume now r w (err e) = (err e, w)
  resume now r w (ok pending) = resolved now r pending w.store (catch_up w.core pending)

  unfoldable pub reconcile_record : Time → Record V → World V C → Result (Unit {0}) × World V C
  unfolding resolve catch_up
  reconcile_record now r w = resume now r w (decode env.pendings r)

  -- The loop; `clock` is the time at which a record's head is written, by the record's key.
  unfoldable pub reconcile_records :
      (String → Time) → List (Record V) → World V C → Result (Unit {0}) × World V C
  unfolding reconcile_record
  reconcile_records clock [] w = (ok tt, w)
  reconcile_records clock (r ∷ rs) w =
      let (answer, w') = reconcile_record (clock r.key) r w in
      elim answer [ err e ↦ (err e, w') | ok u ↦ reconcile_records clock rs w' ]

  abbrev pub reconcile_listed :
      (String → Time) → World V C → Result (List (Record V)) → Result (Unit {0}) × World V C
  reconcile_listed clock w (err e) = (err e, w)
  reconcile_listed clock w (ok rs) = reconcile_records clock rs w

  -- Reconcile
  unfoldable pub reconcile : (String → Time) → World V C → Result (Unit {0}) × World V C
  unfolding reconcile_records
  reconcile clock w = reconcile_listed clock w (list w.store pending_collection "")
