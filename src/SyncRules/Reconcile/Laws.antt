-- ===== src/SyncRules/Reconcile/Laws.antt =====
-- What taking interrupted requests up again respects.
use barq_control_plane.Base.{
  String, ◌≡◌, refl, not, ◌&&◌, leb, some, List, [], ◌∷◌, Result, ok, err, inl, inr, Bool-cases,
  is_code, not_found,
}
use barq_control_plane.Base.Results.{Result-cases}
use barq_control_plane.Control.Types.{Record, decode}
use barq_control_plane.Control.Store.{Store, list, delete}
use barq_control_plane.Auth.Types.{Time}
use barq_control_plane.SyncRules.Types.{
  FlxRuleSet, PendingApply, Core, World, RulesEnv, pending_collection,
}
use barq_control_plane.SyncRules.Finish.Preserved.{IsFinished, finish_apply-respects}
use barq_control_plane.SyncRules.Service.{recovered_revision}
use barq_control_plane.SyncRules.Reconcile.{
  is_target, catch_up, unless_missing, resolve, resolved, reconcile_record, reconcile_records,
  reconcile_listed, reconcile,
}

module _ {V C : Type 0} (env : RulesEnv V) (core : Core V C) (R : Store V → Store V → Type 0)
    (rule : IsFinished env R) where
  pub unless_missing_store : (x : Result (Unit {0}) × Store V) → (unless_missing env core x).1 ≡ x.1
  unless_missing_store (ok u, s) = refl
  unless_missing_store (err e, s) = elim (Bool-cases (is_code e not_found)) [
    | inl p ↦ rw p refl
    | inr p ↦ rw p refl
  ]

  pub resolve-respects :
      (now : Time) (r : Record V) (pending : PendingApply) (current : FlxRuleSet) (s : Store V)
      → R s (resolve env core now r pending current s).1
  unfolding resolve
  resolve-respects now r pending current s =
      elim (Bool-cases (
        leb pending.target_revision current.revision && not (is_target env core pending current))) [
          | inl p ↦ rw p (
              rw
                (unless_missing_store
                  (delete env.valid env.nil s pending_collection r.key (some r.version)))
                (rule.pending_delete s r.key (some r.version)))
          | inr p ↦ elim (Bool-cases (not (is_target env core pending current))) [
            | inl q ↦ rw (p, q) (rule.same s)
            | inr q ↦
                rw (p, q)
                  (finish_apply-respects env R rule now (recovered_revision pending current) r.key
                    r.version s)
          ]
        ]

  resolved-respects :
      (now : Time) (r : Record V) (pending : PendingApply) (s : Store V) (x : Result FlxRuleSet × C)
      → R s (resolved env core now r pending s x).1.store
  resolved-respects now r pending s (err e, c) = rule.same s
  resolved-respects now r pending s (ok current, c) = resolve-respects now r pending current s

  pub reconcile_record-respects :
      (now : Time) (r : Record V) (w : World V C)
      → R w.store (reconcile_record env core now r w).1.store
  unfolding reconcile_record
  reconcile_record-respects now r w = elim (Result-cases (decode env.pendings r)) [
    | inl (pending, e) ↦
        rw (e, reconcile_record)
          (resolved-respects now r pending w.store (catch_up env core w.core pending))
    | inr (e, f) ↦ rw (f, reconcile_record) (rule.same w.store)
  ]

  pub reconcile_records-respects :
      (clock : String → Time) (rs : List (Record V)) (w : World V C)
      → R w.store (reconcile_records env core clock rs w).1.store
  unfolding reconcile_records
  reconcile_records-respects clock [] w = rule.same w.store
  reconcile_records-respects clock (r ∷ rs) w =
      let x = reconcile_record env core (clock r.key) r w in
      let first = reconcile_record-respects (clock r.key) r w in
      elim (Result-cases x.0) [
        | inl (u, e) ↦
            rw (e, reconcile_records)
              (rule.joined w.store x.1.store _ first (reconcile_records-respects clock rs x.1))
        | inr (e, f) ↦ rw (f, reconcile_records) first
      ]

  reconcile_listed-respects :
      (clock : String → Time) (w : World V C) (found : Result (List (Record V)))
      → R w.store (reconcile_listed env core clock w found).1.store
  reconcile_listed-respects clock w (err e) = rule.same w.store
  reconcile_listed-respects clock w (ok rs) = reconcile_records-respects clock rs w

  pub reconcile-respects :
      (clock : String → Time) (w : World V C) → R w.store (reconcile env core clock w).1.store
  unfolding reconcile
  reconcile-respects clock w =
      reconcile_listed-respects clock w (list w.store pending_collection "")
