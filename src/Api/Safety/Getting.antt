-- ===== src/Api/Safety/Getting.antt =====
-- GET requests.
use barq_control_plane.Base.{
  String, ◌≡◌, refl, ◌==◌, eq_iff, true, false, some, Result, ok, err, ltb, inl, inr, Bool-cases,
}
use barq_control_plane.Base.Results.{Result-cases}
use barq_control_plane.Base.{ℕ}
use barq_control_plane.Control.Store.{Store}
use barq_control_plane.Control.Store.Spared.{Untouched, Spared}
use barq_control_plane.Auth.Types.{ServiceKey, Time}
use barq_control_plane.Auth.Tenants.{Scope}
use barq_control_plane.SyncRules.Types.{FlxRuleSet, Core, World, RulesEnv}
use barq_control_plane.SyncRules.Finish.{reconcile_scope}
use barq_control_plane.SyncRules.Finish.Frame.{IsElsewhere, Spared-IsRespected}
use barq_control_plane.SyncRules.Service.{current_rules, answer_current, with_core}
use barq_control_plane.SyncRules.Service.Laws.{current_rules-respects}
use barq_control_plane.Api.Types.{HttpRequest, ApiEnv}
use barq_control_plane.Api.Routes.{handle}
use barq_control_plane.Api.Served.{IsServed}
use barq_control_plane.Api.Served.Routes.{handle-respects}

-- Two methods are not both the one of a request.
two_methods :
    {A : Type 0} (m n o : String) → (n == o) ≡ false → (m == n) ≡ true → (m == o) ≡ true → A
two_methods m n o apart h k = let k' : (n == o) ≡ true = rw (← (eq_iff m n).0 h) k in cc (k', apart)

module _ {V C : Type 0} (env : RulesEnv V) (core : Core V C) where
  answered_core :
      (current : FlxRuleSet) (c : C) (x : Result (Unit {0}) × Store V)
      → (answer_current env core current (with_core env core c x)).1.core ≡ c
  answered_core current c (ok u, s) = refl
  answered_core current c (err e, s) = refl

  current_rules_core :
      (clock : ℕ → Time) (scope : Scope) (request_id : String) (w : World V C)
      → (current_rules env core clock scope request_id w).1.core ≡ w.core
  unfolding current_rules
  current_rules_core clock scope request_id w =
      let answer = core.read_rules w.core (record { request_id = request_id; scope = scope }) in
      elim (Result-cases answer) [
        | inr (e, f) ↦ rw (f, current_rules) refl
        | inl (current, e) ↦ elim (Bool-cases (ltb 0 current.revision)) [
          | inr p ↦ rw (e, p, current_rules) refl
          | inl p ↦
              rw (e, p, current_rules)
                (answered_core current w.core
                  (reconcile_scope env (clock 0) (clock 1) scope current request_id w.store))
        ]
      ]

module _ {V C : Type 0} (env : ApiEnv V C) (r : HttpRequest) where
  -- Core is the same, and so is every record outside of the collections of sync rules.
  record OnlyRules (w v : World V C) : Type 0 where
    same_core : v.core ≡ w.core
    untouched : (c : String) → IsElsewhere c → Untouched c w.store v.store

  getting-IsServed :
      (key : ServiceKey) → (r.method == "GET") ≡ true → IsServed env r (some key) OnlyRules
  getting-IsServed key got = record {
    same = λ w. record { same_core = refl; untouched = λ c apart k. refl };
    tenant_created = λ input w u m h. two_methods r.method "POST" "GET" refl m got;
    tenant_updated = λ id input w u m h. two_methods r.method "PATCH" "GET" refl m got;
    tenant_disabled = λ id w u m h. two_methods r.method "DELETE" "GET" refl m got;
    key_created = λ input w u m h. two_methods r.method "POST" "GET" refl m got;
    key_rotated = λ id k w u m f h. two_methods r.method "POST" "GET" refl m got;
    key_updated = λ id k input w u m f h. two_methods r.method "PATCH" "GET" refl m got;
    key_revoked = λ id k w u m f h. two_methods r.method "DELETE" "GET" refl m got;
    hook_registered = λ input w u m h. two_methods r.method "POST" "GET" refl m got;
    hook_updated = λ id hook input w u v m f h g. two_methods r.method "PATCH" "GET" refl m got;
    hook_disabled = λ id hook w u m f h. two_methods r.method "DELETE" "GET" refl m got;
    secret_rotated = λ hook w u m h. two_methods r.method "POST" "GET" refl m got;
    replayed = λ hook w u m h. two_methods r.method "POST" "GET" refl m got;
    rules_read = λ scope id w u m h. record {
      same_core = current_rules_core env.rules env.core r.clock scope id w;
      untouched = λ c apart.
          (current_rules-respects env.rules env.core (Spared c)
            (Spared-IsRespected env.rules c apart) r.clock scope id w).untouched;
    };
    rules_applied = λ scope input w u m h. two_methods r.method "PUT" "GET" refl m got;
    rules_restored = λ scope n input w u m h. two_methods r.method "POST" "GET" refl m got;
    object_written = λ request w u m h. cc (got, m);
    batch_run = λ request w u m h. two_methods r.method "POST" "GET" refl m got;
    schema_applied = λ request w u m h. two_methods r.method "POST" "GET" refl m got;
  }

  -- A GET request leaves Core as it is, and every record of a collection that is not one of sync
  -- rules, whoever sends it and whatever routing does with it.
  pub handle_get_lem :
      (w : World V C) (c : String)
      → (r.method == "GET") ≡ true
      → IsElsewhere c
      → ((handle env r w).1.core ≡ w.core) × Untouched c w.store (handle env r w).1.store
  handle_get_lem w c got apart =
      let only =
        handle-respects env r OnlyRules w
          (λ v. record { same_core = refl; untouched = λ k away n. refl })
          λ key e. getting-IsServed key got in
      (only.same_core, only.untouched c apart)
