-- ===== src/Auth/Bootstrap/Laws.antt =====
-- What the first start accepts as a key, and what a start leaves as it is.
use barq_control_plane.Base.{
  ℕ, String, ◌≡◌, refl, ◌>>◌, ltb, plain, ◌∙◌, ◌==◌, is_blank, Bool, true, false, not, ◌&&◌, ◌||◌,
  Option, some, List, [], ◌∷◌, ◌++◌, map, Error, Result, ok, err, ensure, inl, inr, Bool-cases,
  is_code, not_found, eqb,
}
use mathlib.Core.Path.{subst}
use barq_control_plane.Base.Results.{Result-cases, ok-injective, bind_elim, ensure_elim}
use barq_control_plane.Base.Lists.{All, is_nil, length}
use barq_control_plane.Base.Sorting.{sort_strings}
use barq_control_plane.Base.Split.{split, split_cuts}
use barq_control_plane.Base.Text.{trim_space}
use barq_control_plane.Control.Types.{Record, Mutation, decode, encode}
use barq_control_plane.Control.Checks.{invalid}
use barq_control_plane.Control.Store.{Store, find_record, get, list, put, apply}
use barq_control_plane.Control.Store.Frames.{put_frame, apply_keeps, Spares}
use barq_control_plane.Control.Store.Steps.{and_then}
use barq_control_plane.Auth.Types.{
  Time, Tenant, ServiceKey, AuthEnv, api_key_collection, tenant_collection,
}
use barq_control_plane.Auth.Patterns.{valid_identity}
use barq_control_plane.Auth.Normalize.{normalize_actions, action_test}
use barq_control_plane.Auth.Normalize.Laws.{IsNormal, normalize_actions-IsNormal}
use barq_control_plane.Auth.Bootstrap.{
  BootstrapOptions, DatabaseSet, entry_error, star_or_identity, key_of_parts, parse_bootstrap_key,
  missing, all_valid, new_tenant, add_tenant, merge_decoded, ensure_from, ensure_tenant,
  ensure_sets, ensure_bootstrap_tenants, add_records, add_database, digested, plan_entries,
  plan_first, key_record, first_start, later_start, start, bootstrap, uses_dev, or_default,
  config_of,
}

-- What the bootstrap promises of a key that it accepts.
pub record IsBootstrapKey (key : ServiceKey) : Type 0 where
  pub usable : key.enabled ≡ true
  pub tenant_allowed : star_or_identity key.tenant ≡ true
  pub database_allowed : star_or_identity key.database ≡ true
  pub global_is_whole : (key.tenant == "*" && not (key.database == "*")) ≡ false
  pub listed : List String
  pub actions_normal : IsNormal action_test listed key.actions

and_left : (a b : Bool) → (a && b) ≡ true → a ≡ true
and_left true b h = refl
and_left false b h = cc

and_right : (a b : Bool) → (a && b) ≡ true → b ≡ true
and_right true b h = h
and_right false b h = cc

ensured : (b : Bool) (e : Error) {u : Unit {0}} → ensure b e ≡ ok u → b ≡ true
ensured true e h = refl
ensured false e h = cc

not-true_lem : (b : Bool) → not b ≡ true → b ≡ false
not-true_lem true h = cc
not-true_lem false h = refl

key_of_parts-ok :
    (now : Time) (parts : List String) {p : String × ServiceKey}
    → key_of_parts now parts ≡ ok p
    → IsBootstrapKey p.1
unfolding key_of_parts
key_of_parts-ok now (raw ∷ tenant ∷ database ∷ actions ∷ []) h =
    let given = not (is_blank raw || is_blank tenant || is_blank database || is_blank actions) in
    let scope_test = star_or_identity tenant && star_or_identity database in
    let scope_error = invalid "invalid bootstrap key scope" in
    let whole_test = not (tenant == "*" && not (database == "*")) in
    let whole_error = invalid "a global key must use * for both tenant and database" in
    bind_elim (ensure given entry_error) _ h λ filled h₀ h₁.
      bind_elim (normalize_actions (split b'|' actions)) _ h₁ λ allowed normal h₂.
        bind_elim (ensure scope_test scope_error) _ h₂ λ u scoped h₃.
          bind_elim (ensure whole_test whole_error) _ h₃ λ v whole h₄.
            subst (λ q. IsBootstrapKey q.1) (ok-injective h₄)
              (record {
                usable = refl;
                tenant_allowed = and_left _ _ (ensured _ _ scoped);
                database_allowed = and_right _ _ (ensured _ _ scoped);
                global_is_whole = not-true_lem _ (ensured _ _ whole);
                listed = split b'|' actions;
                actions_normal = (normalize_actions-IsNormal (split b'|' actions) normal).0;
              })
key_of_parts-ok now [] h = cc
key_of_parts-ok now (raw ∷ []) h = cc
key_of_parts-ok now (raw ∷ tenant ∷ []) h = cc
key_of_parts-ok now (raw ∷ tenant ∷ database ∷ []) h = cc
key_of_parts-ok now (raw ∷ tenant ∷ database ∷ actions ∷ other ∷ more) h = cc

-- A key that is accepted from an entry is enabled; its tenant and its database are each `*` or a
-- valid identity, and the database is `*` if the tenant is; its actions are the trimmed actions of
-- a list, each of them known, in order and without repetition.
pub parse_bootstrap_key-ok :
    (entry : String) (now : Time) {p : String × ServiceKey}
    → parse_bootstrap_key entry now ≡ ok p
    → IsBootstrapKey p.1
unfolding parse_bootstrap_key
parse_bootstrap_key-ok entry now h = key_of_parts-ok now (split_cuts b':' 3 (trim_space entry)) h

module _ {V : Type 0} where
  -- Every stored key is stored afterwards, unchanged.
  abbrev pub KeysKept : Store V → Store V → Type 0
  KeysKept s t =
      (k : String) (r : Record V)
      → find_record api_key_collection k s.records ≡ some r
      → find_record api_key_collection k t.records ≡ some r

  then_kept :
      {A B : Type 0} (s : Store V) (x : Result A × Store V) (f : A → Store V → Result B × Store V)
      → KeysKept s x.1
      → ((a : A) (t : Store V) → KeysKept t (f a t).1)
      → KeysKept s (and_then x f).1
  then_kept s (ok a, t) f first later k r found = later a t k r (first k r found)
  then_kept s (err e, t) f first later k r found = first k r found

module _ {V : Type 0} (env : AuthEnv V) where
  tenant_put_kept :
      (s : Store V) (id : String) (value : V) (expected : Option ℕ)
      → KeysKept s
          (and_then (put env.valid s tenant_collection id value expected) λ r t. (ok tt, t)).1
  tenant_put_kept s id value expected =
      then_kept s (put env.valid s tenant_collection id value expected) _
        (λ k r found.
          put_frame env.valid s tenant_collection id value expected api_key_collection k refl
          ∙ found)
        λ a t k r found. found

  add_tenant_kept :
      (id : String) (s : Store V) (r : Result V) → KeysKept s (add_tenant env id s r).1
  add_tenant_kept id s (err e) = λ k r found. found
  add_tenant_kept id s (ok value) = tenant_put_kept s id value (some 0)

  merge_decoded_kept :
      (now : Time) (id : String) (databases : List String) (version : ℕ) (s : Store V)
      (r : Result Tenant)
      → KeysKept s (merge_decoded env now id databases version s r).1
  merge_decoded_kept now id databases version s (err e) = λ k r found. found
  merge_decoded_kept now id databases version s (ok tenant) =
      let merged = sort_strings (tenant.databases ++ missing tenant.databases databases) in
      elim (Bool-cases (eqb (length merged) (length tenant.databases))) [
        | inl p ↦ rw p λ k r found. found
        | inr p ↦ rw p (tenant_put_kept s id _ (some version))
      ]

  ensure_from_kept :
      (now : Time) (id : String) (databases : List String) (s : Store V) (r : Result (Record V))
      → KeysKept s (ensure_from env now id databases s r).1
  unfolding ensure_from
  ensure_from_kept now id databases s (ok r) =
      merge_decoded_kept now id databases r.version s (decode env.tenants r)
  ensure_from_kept now id databases s (err e) = elim (Bool-cases (is_code e not_found)) [
    | inl p ↦ rw p (add_tenant_kept id s (encode env.tenants (new_tenant env now id databases)))
    | inr p ↦ rw p λ k r found. found
  ]

  ensure_tenant_kept :
      (now : Time) (set : DatabaseSet) (s : Store V) → KeysKept s (ensure_tenant env now set s).1
  unfolding ensure_tenant
  ensure_tenant_kept now set s = elim (Bool-cases (not (valid_identity set.tenant))) [
    | inl p ↦ rw p λ k r found. found
    | inr p ↦ elim (Bool-cases (not (all_valid set.databases))) [
      | inl q ↦ rw (p, q) λ k r found. found
      | inr q ↦
          rw (p, q)
            (ensure_from_kept now set.tenant (sort_strings set.databases) s
              (get s tenant_collection set.tenant))
    ]
  ]

  ensure_sets_kept :
      (clock : String → Time) (sets : List DatabaseSet) (s : Store V)
      → KeysKept s (ensure_sets env clock sets s).1
  unfolding ensure_sets
  ensure_sets_kept clock [] s = λ k r found. found
  ensure_sets_kept clock (set ∷ sets) s =
      then_kept s (ensure_tenant env (clock set.tenant) set s) _
        (ensure_tenant_kept (clock set.tenant) set s) λ u t. ensure_sets_kept clock sets t

  planned_fresh :
      (now : Time) (entries : List String) {planned : List (ServiceKey × Mutation V)}
      → plan_entries env now entries ≡ ok planned
      → (k : String) → All (Spares env.valid api_key_collection k) (map (λ p. p.1) planned)
  unfolding plan_entries
  planned_fresh now [] h k = rw (← ok-injective h) tt
  planned_fresh now (entry ∷ entries) h k =
      bind_elim (parse_bootstrap_key entry now) _ h λ parsed accepted h₁.
        bind_elim (encode env.keys (digested env parsed.0 parsed.1)) _ h₁ λ value made h₂.
          bind_elim (plan_entries env now entries) _ h₂ λ rest planned h₃.
            rw (← ok-injective h₃) (inr refl, planned_fresh now entries planned k)

  plan_first_fresh :
      (now : Time) (config : String) {planned : List (ServiceKey × Mutation V)}
      → plan_first env now config ≡ ok planned
      → (k : String) → All (Spares env.valid api_key_collection k) (map (λ p. p.1) planned)
  unfolding plan_first
  plan_first_fresh now config h k =
      let entries = split b',' config in
      let few = not (ltb 50 (length entries)) in
      let many = invalid "at most 50 bootstrap API keys are allowed" in
      ensure_elim (not (is_blank config)) (plain "BARQ_API_KEYS is required for the first start")
        (ensure few many >> plan_entries env now entries) h
        λ given h₁.
          ensure_elim few many (plan_entries env now entries) h₁
            λ fits h₂. planned_fresh now (split b',' config) h₂ k

  module _ (arrange : List DatabaseSet → List DatabaseSet) (clock : String → Time) where
    ensure_kept :
        (records : List (Record V)) (tenant database : String) (s : Store V)
        → KeysKept s (ensure_bootstrap_tenants env arrange clock records tenant database s).1
    unfolding ensure_bootstrap_tenants
    ensure_kept records tenant database s =
        elim (Result-cases (add_records env records (add_database tenant database []))) [
          | inl (sets, e) ↦
              rw (e, ensure_bootstrap_tenants) (ensure_sets_kept clock (arrange sets) s)
          | inr (e, f) ↦ rw (f, ensure_bootstrap_tenants) λ k r found. found
        ]

    stored_kept :
        (tenant database : String) (s : Store V) (planned : List (ServiceKey × Mutation V))
        → ((k : String) → All (Spares env.valid api_key_collection k) (map (λ p. p.1) planned))
        → KeysKept s (first_start env arrange clock tenant database s (ok planned)).1
    stored_kept tenant database s planned fresh k r found =
        let ms = map (λ p. p.1) planned in
        let kept = apply_keeps env.valid s ms api_key_collection k r (fresh k) found in
        elim (Result-cases (apply env.valid s ms).0) [
          | inr (e, f) ↦ rw (f, first_start) kept
          | inl (rs, e) ↦
              rw (e, first_start)
                (ensure_kept (map (λ p. key_record env p.0) planned) tenant database
                  (apply env.valid s ms).1 k r kept)
        ]

    first_start_kept :
        (now : Time) (config tenant database : String) (s : Store V)
        → KeysKept s (first_start env arrange clock tenant database s (plan_first env now config)).1
    first_start_kept now config tenant database s =
        elim (Result-cases (plan_first env now config)) [
          | inr (e, f) ↦ rw f λ k r found. found
          | inl (planned, e) ↦
              rw e (stored_kept tenant database s planned (plan_first_fresh now config e))
        ]

    later_start_kept :
        (options : BootstrapOptions) (records : List (Record V)) (s : Store V)
        (tenants : Result (List (Record V)))
        → KeysKept s (later_start env arrange clock options records s tenants).1
    later_start_kept options records s (err e) = λ k r found. found
    later_start_kept options records s (ok tenants) = elim (Bool-cases (not (is_nil tenants))) [
      | inl p ↦ rw p λ k r found. found
      | inr p ↦ rw p (ensure_kept records options.default_tenant options.default_database s)
    ]

    start_kept :
        (now : Time) (options : BootstrapOptions) (s : Store V) (records : Result (List (Record V)))
        → KeysKept s (start env arrange clock now options s records).1
    unfolding start
    start_kept now options s (err e) = λ k r found. found
    start_kept now options s (ok []) =
        first_start_kept now (config_of env options)
          (or_default env (uses_dev env options) options.default_tenant "dev")
          (or_default env (uses_dev env options) options.default_database "default") s
    start_kept now options s (ok (r ∷ rs)) =
        later_start_kept options (r ∷ rs) s (list s tenant_collection "")

    -- Whatever the configuration and the order of the tenants, and whether it succeeds or not, a
    -- start keeps every API key that is stored, with its version.
    pub bootstrap-KeysKept :
        (now : Time) (options : BootstrapOptions) (s : Store V)
        → KeysKept s (bootstrap env arrange clock now options s).1
    unfolding bootstrap
    bootstrap-KeysKept now options s = start_kept now options s (list s api_key_collection "")
