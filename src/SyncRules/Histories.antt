-- ===== src/SyncRules/Histories.antt =====
-- Sequences of the operations of the service, in any order and for any scopes.
use barq_control_plane.Base.{ℕ, String, List, [], ◌∷◌}
use barq_control_plane.Control.Store.{Store}
use barq_control_plane.Auth.Types.{Time}
use barq_control_plane.Auth.Tenants.{Scope}
use barq_control_plane.SyncRules.Types.{ApplyInput, Core, World, RulesEnv, IsLawfulRules}
use barq_control_plane.SyncRules.Finish.Preserved.{IsRespected}
use barq_control_plane.SyncRules.Finish.Heads.{HeadsGrow}
use barq_control_plane.SyncRules.Finish.Grows.{grow-IsRespected}
use barq_control_plane.SyncRules.Finish.History.{HistoryKept, kept-IsRespected}
use barq_control_plane.SyncRules.Service.{current_rules, apply_rules, restore}
use barq_control_plane.SyncRules.Service.Laws.{
  current_rules-respects, apply_rules-respects, restore-respects,
}
use barq_control_plane.SyncRules.Reconcile.{reconcile}
use barq_control_plane.SyncRules.Reconcile.Laws.{reconcile-respects}

-- The operations that write.
pub data Action : Type 0 where
  reading : (ℕ → Time) → Scope → String → Action
  applying : (ℕ → Time) → Scope → ApplyInput → Action
  restoring : (ℕ → Time) → Scope → ℕ → ApplyInput → Action
  recovering : (String → Time) → Action

module _ {V C : Type 0} (env : RulesEnv V) (core : Core V C) where
  unfoldable pub act : Action → World V C → World V C
  act (reading clock scope request_id) w = (current_rules env core clock scope request_id w).1
  act (applying clock scope input) w = (apply_rules env core clock scope input w).1
  act (restoring clock scope revision input) w = (restore env core clock scope revision input w).1
  act (recovering clock) w = (reconcile env core clock w).1

  unfoldable pub act_all : List Action → World V C → World V C
  unfolding act
  act_all [] w = w
  act_all (a ∷ actions) w = act_all actions (act a w)

  module _ (R : Store V → Store V → Type 0) (rule : IsRespected env R) where
    act-respects : (a : Action) (w : World V C) → R w.store (act a w).store
    unfolding act
    act-respects (reading clock scope request_id) w =
        current_rules-respects env core R rule clock scope request_id w
    act-respects (applying clock scope input) w =
        apply_rules-respects env core R rule clock scope input w
    act-respects (restoring clock scope revision input) w =
        restore-respects env core R rule clock scope revision input w
    act-respects (recovering clock) w = reconcile-respects env core R rule.finished clock w

    act_all-respects : (actions : List Action) (w : World V C) → R w.store (act_all actions w).store
    unfolding act_all
    act_all-respects [] w = rule.finished.same w.store
    act_all-respects (a ∷ actions) w =
        rule.finished.joined w.store (act a w).store _ (act-respects a w)
          (act_all-respects actions (act a w))

  -- If the encoding is lawful, then after any sequence of operations, of any requests and whatever
  -- Core answers, every scope that had a head has one, of the same revision or a later one.
  pub act_all-HeadsGrow :
      (law : IsLawfulRules env) (actions : List Action) (w : World V C)
      → HeadsGrow env w.store (act_all actions w).store
  act_all-HeadsGrow law = act_all-respects (HeadsGrow env) (grow-IsRespected env law)

  -- After any sequence of operations, of any requests and whatever Core answers, every revision
  -- that was stored is stored under its key unchanged.
  pub act_all-HistoryKept :
      (actions : List Action) (w : World V C) → HistoryKept w.store (act_all actions w).store
  act_all-HistoryKept = act_all-respects HistoryKept (kept-IsRespected env)
