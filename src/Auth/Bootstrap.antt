-- ===== src/Auth/Bootstrap.antt =====
-- The first start: `Bootstrap`, `ensureBootstrapTenants` and `parseBootstrapKey` of
-- internal/auth/manager.go. Go ranges over a map in any order: `arrange` is that order.
pub mod Laws
use barq_control_plane.Base.{
  ℕ, String, ◌==◌, ◌<>◌, is_blank, if◌then◌else◌, Bool, true, false, not, ◌&&◌, ◌||◌, eqb, ltb,
  Option, none, some, List, [], ◌∷◌, ◌++◌, map, Error, plain, Result, ok, err, ◌>>=◌, ◌>>◌, ensure,
  is_code, not_found, wrap,
}
use barq_control_plane.Base.Lists.{contains, length, is_nil}
use barq_control_plane.Base.Sorting.{sort_strings}
use barq_control_plane.Base.Split.{split, split_cuts, take}
use barq_control_plane.Base.Text.{trim_space}
use barq_control_plane.Control.Types.{Record, Mutation, encode, decode}
use barq_control_plane.Control.Checks.{invalid}
use barq_control_plane.Control.Store.{Store, get, list, put, put_of, apply}
use barq_control_plane.Control.Store.Steps.{and_then}
use barq_control_plane.Auth.Types.{
  Time, Tenant, ServiceKey, AuthEnv, or_nil, api_key_collection, tenant_collection,
}
use barq_control_plane.Auth.Patterns.{valid_identity}
use barq_control_plane.Auth.Normalize.{normalize_actions}

pub record BootstrapOptions : Type 0 where
  pub api_keys : String
  pub dev_mode : Bool
  pub default_tenant : String
  pub default_database : String

-- A tenant, and the databases that its set holds.
pub record DatabaseSet : Type 0 where
  pub tenant : String
  pub databases : List String

abbrev pub star_or_identity : String → Bool
star_or_identity s = s == "*" || valid_identity s

abbrev pub entry_error : Error
entry_error = plain "invalid BARQ_API_KEYS entry; expected key:tenant:database:action|action"

-- The key of an entry, still without its digest and its id.
unfoldable pub key_of_parts : Time → List String → Result (String × ServiceKey)
unfolding normalize_actions split
key_of_parts now (raw ∷ tenant ∷ database ∷ actions ∷ []) = do
  ensure (not (is_blank raw || is_blank tenant || is_blank database || is_blank actions))
      entry_error
  allowed ← normalize_actions (split b'|' actions)
  ensure (star_or_identity tenant && star_or_identity database)
      (invalid "invalid bootstrap key scope")
  ensure (not (tenant == "*" && not (database == "*")))
      (invalid "a global key must use * for both tenant and database")
  ok (
    raw,
    record {
      id = "";
      label = "";
      digest = "";
      tenant = tenant;
      database = database;
      actions = allowed;
      enabled = true;
      created_at = now;
      updated_at = now;
    },
  )
key_of_parts now _ = err entry_error

unfoldable pub parse_bootstrap_key : String → Time → Result (String × ServiceKey)
unfolding key_of_parts split_cuts trim_space
parse_bootstrap_key entry now = key_of_parts now (split_cuts b':' 3 (trim_space entry))

-- `databaseSets[tenant][database] = true`
unfoldable pub insert_database : String → String → List DatabaseSet → List DatabaseSet
unfolding contains
insert_database tenant database [] = record { tenant = tenant; databases = database ∷ [] } ∷ []
insert_database tenant database (set ∷ sets) =
    let rest = insert_database tenant database sets in
    if set.tenant == tenant
    then (if contains set.databases database
        then set ∷ sets
        else record set { databases = set.databases ++ database ∷ [] } ∷ sets)
    else set ∷ rest

-- `add`
unfoldable pub add_database : String → String → List DatabaseSet → List DatabaseSet
unfolding insert_database
add_database tenant database sets =
    if is_blank tenant || is_blank database || tenant == "*" || database == "*"
    then sets
    else insert_database tenant database sets

-- The databases of a set that are not among the tenant's.
unfoldable pub missing : List String → List String → List String
unfolding contains
missing old [] = []
missing old (d ∷ ds) = let rest = missing old ds in if contains old d then rest else d ∷ rest

unfoldable pub all_valid : List String → Bool
unfolding valid_identity
all_valid [] = true
all_valid (d ∷ ds) = valid_identity d && all_valid ds

module _ {V : Type 0} (env : AuthEnv V) where
  unfoldable pub add_records : List (Record V) → List DatabaseSet → Result (List DatabaseSet)
  unfolding add_database
  add_records [] sets = ok sets
  add_records (r ∷ rs) sets = elim (decode env.keys r) [
    | err e ↦ err (wrap "read stored API key: " e)
    | ok key ↦ add_records rs (add_database key.tenant key.database sets)
  ]

  -- A tenant that is there: it only gains databases.
  abbrev pub merge_tenant :
      Time → String → List String → ℕ → Store V → Tenant → Result (Unit {0}) × Store V
  merge_tenant now id databases version s tenant =
      let merged = sort_strings (tenant.databases ++ missing tenant.databases databases) in
      if eqb (length merged) (length tenant.databases)
      then (ok tt, s)
      else and_then
          (put env.valid s tenant_collection id
            (or_nil env.nil
              (encode env.tenants (record tenant { databases = merged; updated_at = now })))
            (some version))
          λ r t. (ok tt, t)

  abbrev pub new_tenant : Time → String → List String → Tenant
  new_tenant now id databases = record {
    id = id;
    name = id;
    databases = databases;
    enabled = true;
    created_at = now;
    updated_at = now;
  }

  abbrev pub add_tenant : String → Store V → Result V → Result (Unit {0}) × Store V
  add_tenant id s (err e) = (err e, s)
  add_tenant id s (ok value) =
      and_then (put env.valid s tenant_collection id value (some 0)) λ r t. (ok tt, t)

  abbrev pub merge_decoded :
      Time → String → List String → ℕ → Store V → Result Tenant → Result (Unit {0}) × Store V
  merge_decoded now id databases version s (err e) = (err e, s)
  merge_decoded now id databases version s (ok tenant) =
      merge_tenant now id databases version s tenant

  unfoldable pub ensure_from :
      Time → String → List String → Store V → Result (Record V) → Result (Unit {0}) × Store V
  unfolding missing sort_strings
  ensure_from now id databases s (ok r) =
      merge_decoded now id databases r.version s (decode env.tenants r)
  ensure_from now id databases s (err e) =
      if is_code e not_found
      then add_tenant id s (encode env.tenants (new_tenant now id databases))
      else (err e, s)

  -- One round of the loop over the map.
  unfoldable pub ensure_tenant : Time → DatabaseSet → Store V → Result (Unit {0}) × Store V
  unfolding ensure_from all_valid sort_strings valid_identity
  ensure_tenant now set s =
      if not (valid_identity set.tenant)
      then (err (invalid "invalid bootstrap tenant"), s)
      else if not (all_valid set.databases)
      then (err (invalid "invalid bootstrap database"), s)
      else ensure_from now set.tenant (sort_strings set.databases) s
          (get s tenant_collection set.tenant)

  unfoldable pub ensure_sets :
      (String → Time) → List DatabaseSet → Store V → Result (Unit {0}) × Store V
  unfolding ensure_tenant
  ensure_sets clock [] s = (ok tt, s)
  ensure_sets clock (set ∷ sets) s =
      and_then (ensure_tenant (clock set.tenant) set s) λ u t. ensure_sets clock sets t

  abbrev pub ensure_added :
      (arrange : List DatabaseSet → List DatabaseSet) (clock : String → Time)
      → Store V
      → Result (List DatabaseSet)
      → Result (Unit {0}) × Store V
  ensure_added arrange clock s (err e) = (err e, s)
  ensure_added arrange clock s (ok sets) = ensure_sets clock (arrange sets) s

  unfoldable pub ensure_bootstrap_tenants :
      (arrange : List DatabaseSet → List DatabaseSet) (clock : String → Time)
      → List (Record V)
      → String
      → String
      → Store V
      → Result (Unit {0}) × Store V
  unfolding add_records add_database ensure_sets
  ensure_bootstrap_tenants arrange clock records tenant database s =
      ensure_added arrange clock s (add_records records (add_database tenant database []))

  abbrev pub digested : String → ServiceKey → ServiceKey
  digested raw key = record key { digest = env.digest raw; id = "key_" <> take 16 (env.digest raw) }

  -- The loop over the entries: the keys, and the mutations that store them.
  unfoldable pub plan_entries : Time → List String → Result (List (ServiceKey × Mutation V))
  unfolding parse_bootstrap_key take
  plan_entries now [] = ok []
  plan_entries now (entry ∷ entries) = do
    parsed ← parse_bootstrap_key entry now
    let key = digested parsed.0 parsed.1
    value ← encode env.keys key
    rest ← plan_entries now entries
    ok ((key, put_of api_key_collection key.digest value (some 0)) ∷ rest)

  abbrev pub key_record : ServiceKey → Record V
  key_record key = record {
    collection = "";
    key = "";
    value = or_nil env.nil (encode env.keys key);
    version = 0;
  }

  -- The configuration that is used: a development key, if there is none in development mode.
  abbrev pub uses_dev : BootstrapOptions → Bool
  uses_dev options = is_blank (trim_space options.api_keys) && options.dev_mode

  abbrev pub or_default : Bool → String → String → String
  or_default dev given default = if dev && is_blank given then default else given

  abbrev pub first_start :
      (arrange : List DatabaseSet → List DatabaseSet) (clock : String → Time)
      → String
      → String
      → Store V
      → Result (List (ServiceKey × Mutation V))
      → Result (Unit {0}) × Store V
  first_start arrange clock tenant database s (err e) = (err e, s)
  first_start arrange clock tenant database s (ok planned) =
      let (stored, t) = apply env.valid s (map (λ p. p.1) planned) in
      elim stored [
        | err e ↦ (err (wrap "store bootstrap API keys: " e), t)
        | ok rs ↦
            ensure_bootstrap_tenants arrange clock (map (λ p. key_record p.0) planned) tenant
              database t
      ]

  unfoldable pub plan_first : Time → String → Result (List (ServiceKey × Mutation V))
  unfolding plan_entries split
  plan_first now config = do
    ensure (not (is_blank config)) (plain "BARQ_API_KEYS is required for the first start")
    let entries = split b',' config
    ensure (not (ltb 50 (length entries))) (invalid "at most 50 bootstrap API keys are allowed")
    plan_entries now entries

  -- What is done where keys are stored already.
  abbrev pub later_start :
      (arrange : List DatabaseSet → List DatabaseSet) (clock : String → Time)
      → BootstrapOptions
      → List (Record V)
      → Store V
      → Result (List (Record V))
      → Result (Unit {0}) × Store V
  later_start arrange clock options records s (err e) = (err e, s)
  later_start arrange clock options records s (ok tenants) =
      if not (is_nil tenants)
      then (ok tt, s)
      else ensure_bootstrap_tenants arrange clock records options.default_tenant
          options.default_database s

  abbrev pub config_of : BootstrapOptions → String
  config_of options = if uses_dev options then "dev-key:*:*:*" else trim_space options.api_keys

  unfoldable pub start :
      (arrange : List DatabaseSet → List DatabaseSet) (clock : String → Time)
      → Time
      → BootstrapOptions
      → Store V
      → Result (List (Record V))
      → Result (Unit {0}) × Store V
  unfolding ensure_bootstrap_tenants plan_first trim_space
  start arrange clock now options s (err e) = (err e, s)
  start arrange clock now options s (ok []) =
      first_start arrange clock (or_default (uses_dev options) options.default_tenant "dev")
        (or_default (uses_dev options) options.default_database "default") s
        (plan_first now (config_of options))
  start arrange clock now options s (ok (r ∷ rs)) =
      later_start arrange clock options (r ∷ rs) s (list s tenant_collection "")

  -- Bootstrap
  unfoldable pub bootstrap :
      (arrange : List DatabaseSet → List DatabaseSet) (clock : String → Time)
      → Time
      → BootstrapOptions
      → Store V
      → Result (Unit {0}) × Store V
  unfolding start
  bootstrap arrange clock now options s =
      start arrange clock now options s (list s api_key_collection "")
