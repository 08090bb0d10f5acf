-- ===== src/Tests/SyncRules.antt =====
-- A scope whose rules Core has at revision 1, and what the theorems on sync rules say of an apply.
use barq_control_plane.Base.{
  ℕ, String, ◌≡◌, refl, sym, ap, true, false, Bool, none, some, List, [], ◌∷◌, Error, Result, ok,
  err, coded, plain, conflict, eqb, if◌then◌else◌, ◌+◌, arith,
}
use barq_control_plane.Base.Results.{ok-injective}
use barq_control_plane.Control.Types.{Record, Codec}
use barq_control_plane.Control.Store.{Store, find_record}
use barq_control_plane.Control.Store.Tables.{IsTable}
use barq_control_plane.Auth.Tenants.{Scope}
use barq_control_plane.SyncRules.Types.{
  Revision, Head, PendingApply, FlxRule, FlxRuleSet, FlxRulesResult, FlxRulesChangeRequest,
  ApplyInput, Core, World, RulesEnv, IsLawfulRules, revision_collection, head_collection,
  pending_collection,
}
use barq_control_plane.SyncRules.Keys.{scope_key, revision_key, pending_key}
use barq_control_plane.SyncRules.Keys.Laws.{scope_key-injective, revision_key-injective_lem}
use barq_control_plane.SyncRules.Service.{apply_rules, new_pending}
use barq_control_plane.SyncRules.Service.Applied.{IsApplied, apply_rules-ok}
use barq_control_plane.SyncRules.Service.Claims.{IsTaken, apply_rules_refused}
use barq_control_plane.SyncRules.Finish.{finish_apply}
use barq_control_plane.SyncRules.Finish.Heads.{HeadsGrow}
use barq_control_plane.SyncRules.Finish.Recorded.{IsRecorded, finish_apply-ok}
use barq_control_plane.SyncRules.Finish.History.{HistoryKept}
use barq_control_plane.SyncRules.Reconcile.{reconcile}
use barq_control_plane.SyncRules.Reconcile.Removed.{IsWorking}
use barq_control_plane.SyncRules.Reconcile.Drained.{reconcile_drains}
use barq_control_plane.SyncRules.Histories.{
  applying, recovering, act_all, act_all-HeadsGrow, act_all-HistoryKept,
}

data Stored : Type 0 where
  revision_json : Revision → Stored
  head_json : Head → Stored
  pending_json : PendingApply → Stored
  no_json : Stored

abbrev unreadable : {A : Type 0} → Result A
unreadable = err (plain "unexpected JSON")

abbrev as_revision : Stored → Result Revision
as_revision (revision_json r) = ok r
as_revision _ = unreadable

abbrev as_head : Stored → Result Head
as_head (head_json h) = ok h
as_head _ = unreadable

abbrev as_pending : Stored → Result PendingApply
as_pending (pending_json p) = ok p
as_pending _ = unreadable

abbrev is_stored : Stored → Bool
is_stored (revision_json r) = true
is_stored (head_json h) = true
is_stored (pending_json p) = true
is_stored no_json = false

abbrev rules_env : RulesEnv Stored
rules_env = record {
  valid = is_stored;
  nil = no_json;
  revisions = record { marshal = λ r. ok (revision_json r); unmarshal = as_revision };
  heads = record { marshal = λ h. ok (head_json h); unmarshal = as_head };
  pendings = record { marshal = λ p. ok (pending_json p); unmarshal = as_pending };
  rules_text = λ rules. elim rules [ [] ↦ "none" | rule ∷ more ↦ rule.object_type ];
  pending_text = λ p. p.actor;
}

rules_law : IsLawfulRules rules_env
rules_law = record {
  revisions_law = record {
    unmarshal-marshal = λ r v e. ap as_revision (sym (ok-injective e));
    valid-marshal = λ r v e. ap is_stored (sym (ok-injective e));
  };
  heads_law = record {
    unmarshal-marshal = λ h v e. ap as_head (sym (ok-injective e));
    valid-marshal = λ h v e. ap is_stored (sym (ok-injective e));
  };
  pendings_law = record {
    unmarshal-marshal = λ p v e. ap as_pending (sym (ok-injective e));
    valid-marshal = λ p v e. ap is_stored (sym (ok-injective e));
  };
}

abbrev answer_of : FlxRuleSet → FlxRulesResult
answer_of set = record {
  rule_set = set;
  current_revision = set.revision;
  target_revision = set.revision;
  changes = [];
  applied = true;
  refreshed_sessions = 0;
}

abbrev changed : FlxRulesChangeRequest → FlxRuleSet
changed request = record {
  revision = request.target_revision;
  hash = "h2";
  source = "apply";
  rules = request.rules;
}

-- Core with the rules of one scope.
abbrev core : Core Stored FlxRuleSet
core = record {
  read_rules = λ set request. ok set;
  plan_rules = λ set request. ok (answer_of (changed request));
  apply_rules = λ set request.
      if eqb set.revision request.expected_revision
      then (ok (answer_of (changed request)), changed request)
      else (err (coded conflict "revision"), set);
  test_rules = λ set request. unreadable;
  read_schema = λ set request. unreadable;
}

abbrev app : Scope
app = record { tenant = "acme"; database = "app" }

abbrev rule : FlxRule
rule = record { object_type = "Note"; read = "true"; write = "true" }

abbrev first_set : FlxRuleSet
first_set = record { revision = 1; hash = "h1"; source = "apply"; rules = [] }

abbrev first_revision : Revision
first_revision = record {
  scope = app;
  revision = 1;
  hash = "h1";
  rules = [];
  actor = "ops";
  request_id = "r1";
  source = "apply";
  created_at = 1;
}

abbrev first_head : Head
first_head = record { scope = app; revision = 1; hash = "h1"; updated_at = 1 }

abbrev input : ApplyInput
input = record { expected_revision = 1; rules = rule ∷ []; request_id = "r2"; actor = "ops" }

abbrev first_places : List (Record Stored)
first_places =
    record {
      collection = revision_collection;
      key = revision_key app 1;
      value = revision_json first_revision;
      version = 1;
    }
    ∷ record {
      collection = head_collection;
      key = scope_key app;
      value = head_json first_head;
      version = 1;
    }
    ∷ []

abbrev world : World Stored FlxRuleSet
world = record { store = record { records = first_places; fault = λ r. none }; core = first_set }

act_all-HistoryKept_example :
    HistoryKept world.store
      (act_all rules_env core (applying (λ n. 5) app input ∷ recovering (λ k. 6) ∷ []) world).store
act_all-HistoryKept_example =
    act_all-HistoryKept rules_env core (applying (λ n. 5) app input ∷ recovering (λ k. 6) ∷ [])
      world

act_all-HeadsGrow_example :
    HeadsGrow rules_env world.store
      (act_all rules_env core (applying (λ n. 5) app input ∷ recovering (λ k. 6) ∷ []) world).store
act_all-HeadsGrow_example =
    act_all-HeadsGrow rules_env core rules_law
      (applying (λ n. 5) app input ∷ recovering (λ k. 6) ∷ []) world

abbrev second_set : FlxRuleSet
second_set = record { revision = 2; hash = "h2"; source = "apply"; rules = rule ∷ [] }

apply_rules-ok_example :
    IsApplied rules_env core rules_law app input world
      (apply_rules rules_env core (λ n. 5) app input world).1
      (answer_of second_set)
unfolding apply_rules barq_control_plane.Control.Store.put barq_control_plane.Control.Store.apply
    barq_control_plane.Control.Store.plan barq_control_plane.Base.Lists.contains
    barq_control_plane.Control.Store.put_results barq_control_plane.Control.Store.get
    barq_control_plane.Control.Store.perform_all barq_control_plane.Control.Types.record_id
apply_rules-ok_example = apply_rules-ok rules_env core rules_law (λ n. 5) app input world refl

-- Another request that is stored under the ID.
abbrev other : PendingApply
other = record (new_pending 4 app input) { actor = "someone else" }

abbrev other_place : Record Stored
other_place = record {
  collection = pending_collection;
  key = pending_key app "r2";
  value = pending_json other;
  version = 1;
}

abbrev taken_world : World Stored FlxRuleSet
taken_world = record world {
  store = record { records = other_place ∷ first_places; fault = λ r. none };
}

taken : IsTaken rules_env core taken_world.store app (new_pending 5 app input)
unfolding barq_control_plane.Control.Store.find_record pending_key
    barq_control_plane.SyncRules.Keys.same_pending
taken = record { place = other_place; stored = other; found = refl; reads = refl; differs = refl }

apply_rules_refused_example :
    (e : Error) × (apply_rules rules_env core (λ n. 5) app input taken_world ≡ (err e, taken_world))
apply_rules_refused_example =
    apply_rules_refused rules_env core (λ n. 5) app input taken_world taken

abbrev second_revision : Revision
second_revision = record first_revision {
  revision = 2;
  hash = "h2";
  rules = rule ∷ [];
  request_id = "r2";
}

finish_apply-ok_example :
    IsRecorded rules_env
      (finish_apply rules_env 5 second_revision (pending_key app "r2") 1 taken_world.store).1
      app
      2
      "h2"
unfolding finish_apply barq_control_plane.Control.Store.get
    barq_control_plane.Control.Store.find_record barq_control_plane.Control.Store.apply
    barq_control_plane.Control.Store.plan barq_control_plane.Base.Lists.contains pending_key
    barq_control_plane.Control.Types.record_id
finish_apply-ok_example =
    finish_apply-ok rules_env rules_law 5 second_revision (pending_key app "r2") 1 taken_world.store
      refl

revision_key-injective_lem_example : (app ≡ app) × (◌≡◌ {A = ℕ} 1 1)
revision_key-injective_lem_example = revision_key-injective_lem app app 1 1 refl

scope_key-injective_example : app ≡ app
scope_key-injective_example = scope_key-injective app app refl

taken-IsTable : IsTable taken_world.store.records
unfolding barq_control_plane.Control.Store.find_record pending_key
taken-IsTable = (refl, (refl, (refl, tt)))

taken-IsWorking : IsWorking taken_world.store
unfolding barq_control_plane.Control.Store.find_record pending_key
    barq_control_plane.Control.Checks.version_matches
taken-IsWorking = record {
  calm = λ q. refl;
  keyed = refl;
  numbered = λ k r found. ground (arith, found);
}

reconcile_drains_example :
    find_record pending_collection
      (pending_key app "r2")
      (reconcile rules_env core (λ k. 6) taken_world).1.store.records
    ≡ none
unfolding reconcile barq_control_plane.Control.Store.list barq_control_plane.Base.Text.starts_with
    barq_control_plane.Control.Store.get find_record barq_control_plane.Control.Store.apply
    barq_control_plane.Control.Store.plan barq_control_plane.Base.Lists.contains pending_key
    barq_control_plane.Control.Types.record_id
reconcile_drains_example =
    reconcile_drains rules_env core (λ k. 6) taken_world taken-IsTable taken-IsWorking refl
      (pending_key app "r2")
