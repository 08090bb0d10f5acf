-- ===== src/SyncRules/Service/Applied.antt =====
-- What `Apply` has done when it succeeds, and when Core rejects the request.
use barq_control_plane.Base.{ℕ, ◌≡◌, refl, ap, is_blank, Result, ok, err, inl, inr, Bool-cases}
use barq_control_plane.Base.Results.{Result-cases, ok-injective}
use barq_control_plane.Control.Types.{Record}
use barq_control_plane.Control.Store.{Store}
use barq_control_plane.Auth.Types.{Time}
use barq_control_plane.Auth.Tenants.{Scope}
use barq_control_plane.SyncRules.Types.{
  FlxRulesResult, ApplyInput, Core, World, RulesEnv, IsLawfulRules,
}
use barq_control_plane.SyncRules.Keys.{pending_key, is_final_apply_error}
use barq_control_plane.SyncRules.Finish.{finish_apply}
use barq_control_plane.SyncRules.Finish.Recorded.{IsRecorded, finish_apply-ok}
use barq_control_plane.SyncRules.Service.{
  with_core, claim, answer_applied, settle_apply, apply_claimed, apply_rules, new_pending,
  change_of, applied_revision,
}

module _ {V C : Type 0} (env : RulesEnv V) (core : Core V C) where
  answer_applied-ok :
      (result : FlxRulesResult) (c : C) (x : Result (Unit {0}) × Store V) {out : FlxRulesResult}
      → (answer_applied env core result (with_core env core c x)).0 ≡ ok out
      → (u : Unit {0}) × (x.0 ≡ ok u)
        × (result ≡ out)
        × ((answer_applied env core result (with_core env core c x)).1.store ≡ x.1)
  answer_applied-ok result c (ok u, s) h = (u, refl, ok-injective h, refl)
  answer_applied-ok result c (err e, s) h = cc

  module _ (law : IsLawfulRules env) where
    settle_apply-ok :
        (clock : ℕ → Time) (scope : Scope) (input : ApplyInput) (version : ℕ) (s : Store V)
        (x : Result FlxRulesResult × C) {out : FlxRulesResult}
        → (settle_apply env core clock scope input version s x).0 ≡ ok out
        → IsRecorded env
            (settle_apply env core clock scope input version s x).1.store
            scope
            out.rule_set.revision
            out.rule_set.hash
          × (x.0 ≡ ok out)
    unfolding settle_apply
    settle_apply-ok clock scope input version s (err e, c) h =
        elim (Bool-cases (is_final_apply_error e)) [
          | inl p ↦ cc (rw p at h)
          | inr p ↦ cc (rw p at h)
        ]
    settle_apply-ok clock scope input version s (ok result, c) h =
        let revision = applied_revision (clock 1) scope input result.rule_set in
        let key = pending_key scope input.request_id in
        let (u, done, same, kept) =
          answer_applied-ok result c (finish_apply env (clock 2) revision key version s) h in
        (
          rw (kept, ← same) (finish_apply-ok env law (clock 2) revision key version s done),
          ap ok same,
        )

    -- What a successful `Apply` shows: the answer is Core's to the request, and it is recorded.
    pub record IsApplied (scope : Scope) (input : ApplyInput) (w w' : World V C)
        (out : FlxRulesResult) : Type 0 where
      pub answered : (core.apply_rules w.core (change_of scope input)).0 ≡ ok out
      pub recorded : IsRecorded env w'.store scope out.rule_set.revision out.rule_set.hash
      pub moved : w'.core ≡ (core.apply_rules w.core (change_of scope input)).1

    settle_apply_core :
        (clock : ℕ → Time) (scope : Scope) (input : ApplyInput) (version : ℕ) (s : Store V)
        (x : Result FlxRulesResult × C)
        → (settle_apply env core clock scope input version s x).1.core ≡ x.1
    unfolding settle_apply
    settle_apply_core clock scope input version s (err e, c) =
        elim (Bool-cases (is_final_apply_error e)) [ inl p ↦ rw p refl | inr p ↦ rw p refl ]
    settle_apply_core clock scope input version s (ok result, c) =
        elim (Result-cases
          (finish_apply env (clock 2) (applied_revision (clock 1) scope input result.rule_set)
            (pending_key scope input.request_id) version s).0) [
              | inl (u, e) ↦ rw e refl
              | inr (e, f) ↦ rw f refl
            ]

    apply_claimed-ok :
        (clock : ℕ → Time) (scope : Scope) (input : ApplyInput) (w : World V C)
        (x : Result (Record V) × Store V) {out : FlxRulesResult}
        → (apply_claimed env core clock scope input w.core x).0 ≡ ok out
        → IsApplied scope input w (apply_claimed env core clock scope input w.core x).1 out
    apply_claimed-ok clock scope input w (err e, s) h = cc
    apply_claimed-ok clock scope input w (ok r, s) h =
        let answer = core.apply_rules w.core (change_of scope input) in
        let (recorded, answered) = settle_apply-ok clock scope input r.version s answer h in
        record {
          answered = answered;
          recorded = recorded;
          moved = settle_apply_core clock scope input r.version s answer;
        }

    -- If the encoding is lawful, a sync-rule apply that succeeds returns what Core answered to this
    -- request; the revision that Core reports is stored with its hash, and the scope's head is at
    -- this revision or a later one.
    pub apply_rules-ok :
        (clock : ℕ → Time) (scope : Scope) (input : ApplyInput) (w : World V C)
        {out : FlxRulesResult}
        → (apply_rules env core clock scope input w).0 ≡ ok out
        → IsApplied scope input w (apply_rules env core clock scope input w).1 out
    unfolding apply_rules
    apply_rules-ok clock scope input w h = elim (Bool-cases (is_blank input.request_id)) [
      | inl p ↦ cc (rw (p, apply_rules) at h)
      | inr p ↦
          rw (p, apply_rules)
            (apply_claimed-ok clock scope input w
              (claim env core scope (new_pending (clock 0) scope input) w.store)
              (rw (p, apply_rules) at h))
    ]
