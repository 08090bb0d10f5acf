-- ===== src/Webhooks/Service.antt =====
-- The registrations: `Service` of internal/webhooks/service.go. `now` is the reading of `s.now()`.
pub mod Laws
use barq_control_plane.Base.{
  ℕ, ◌+◌, ◌%◌, String, ◌==◌, ◌<>◌, is_blank, if◌then◌else◌, Bool, true, false, not, ◌&&◌, ◌||◌, ltb,
  leb, Option, none, some, List, [], ◌∷◌, Error, Result, ok, err, ◌>>=◌, ◌>>◌, ensure,
}
use barq_control_plane.Base.Ints.{is_above}
use barq_control_plane.Base.Lists.{contains, is_nil, length}
use barq_control_plane.Base.Sorting.{sort_by}
use barq_control_plane.Control.Types.{Record, Mutation, encode, decode}
use barq_control_plane.Control.Checks.{invalid, word}
use barq_control_plane.Control.Store.{Store, get, list, put, put_of}
use barq_control_plane.Control.Store.Steps.{and_then, run_apply}
use barq_control_plane.DataPlane.{
  EventContext, RelatedRead, filter_field, filter_op, valid_scope, same_scope, error_text,
}
use barq_control_plane.Auth.Types.{Time, or_nil}
use barq_control_plane.Auth.Tenants.{Scope}
use barq_control_plane.Webhooks.Types.{
  Webhook, Revision, Registration, Registered, Delivery, OperationalHealth, Outcome, HookEnv,
  webhook_collection, revision_collection, delivery_collection,
}
use barq_control_plane.Webhooks.Normalize.{effective_limits, revision_key, unique_sorted}
use barq_control_plane.Webhooks.Deliver.{replayed}

abbrev pub or_invalid : Result (Unit {0}) → Result (Unit {0})
or_invalid (ok u) = ok u
or_invalid (err e) = err (invalid (error_text e))

abbrev pub created_leb : {V : Type 0} → Webhook V → Webhook V → Bool
created_leb a b = leb a.created_at b.created_at

-- A zero time is 0.
unfoldable pub earlier_time : Option Time → Time → Option Time
earlier_time none candidate = if leb candidate 0 then none else some candidate
earlier_time (some current) candidate =
    if leb candidate 0 || not (ltb candidate current) then some current else some candidate

module _ {V : Type 0} where
  unfoldable pub count_delivery : Delivery V → OperationalHealth → OperationalHealth
  unfolding earlier_time
  count_delivery d health =
      if d.status == "pending"
      then record health {
        pending = health.pending + 1;
        oldest_pending_at = earlier_time health.oldest_pending_at d.created_at;
      }
      else if d.status == "retry"
      then record health {
        retrying = health.retrying + 1;
        oldest_pending_at = earlier_time health.oldest_pending_at d.created_at;
      }
      else if d.status == "dead"
      then if d.stage == "transform"
        then record health { dead_transform = health.dead_transform + 1 }
        else record health { dead_delivery = health.dead_delivery + 1 }
      else health

  -- The loop over the related reads; `aliases` holds those of the reads before.
  unfoldable pub check_reads : List String → List (RelatedRead V) → Result (Unit {0})
  unfolding contains
  check_reads aliases [] = ok tt
  check_reads aliases (read ∷ reads) = do
    ensure
        (not (
          is_blank read.alias
          || is_blank read.from
          || is_blank (filter_field read.condition)
          || is_blank (filter_op read.condition)))
        (invalid "each related read needs as, from, and where")
    ensure (not (contains aliases read.alias)) (invalid "related read aliases must be unique")
    ensure (not (is_above read.limit 100)) (invalid "related read limit cannot exceed 100")
    check_reads (read.alias ∷ aliases) reads

module _ {V : Type 0} (env : HookEnv V) where
  unfoldable pub is_private_host : String → Bool
  is_private_host host =
      if env.equal_fold host "localhost" then true else elim (env.parse_ip host) [
        | none ↦ false
        | some ip ↦
            ip.is_private || ip.is_loopback || ip.is_link_local_unicast
            || ip.is_link_local_multicast || ip.is_unspecified
      ]

  unfoldable pub check_url : String → Result (Unit {0})
  unfolding is_private_host
  check_url text = elim (env.parse_url text) [
    | none ↦ err (invalid "valid webhook URL is required")
    | some url ↦ do
      ensure (not (is_blank url.scheme || is_blank url.host))
          (invalid "valid webhook URL is required")
      ensure (not (not (url.scheme == "https") && not env.allow_private_urls))
          (invalid "webhook URL must use HTTPS")
      ensure (not (not env.allow_private_urls && is_private_host url.hostname))
          (invalid "private webhook targets are disabled")
  ]

  unfoldable pub validate : Registration V → Result (Unit {0})
  unfolding check_reads check_url effective_limits
  validate input = do
    ensure
        (not (
          is_blank input.name
          || not (valid_scope input.scope)
          || is_nil input.events
          || is_blank input.transform.source))
        (invalid "name, scope, events, and transform source are required")
    ensure (input.transform.language == "javascript")
        (invalid "transform language must be javascript")
    ensure (not (ltb 5 (length input.reads)))
        (invalid "a webhook may define at most five related reads")
    check_reads [] input.reads
    check_url input.url
    or_invalid (env.validate_source input.transform.source (effective_limits input.limits))

  -- Get
  unfoldable pub get_hook : Store V → String → Result (Webhook V)
  get_hook s id = do r ← get s webhook_collection id; decode env.hooks r

  -- revision
  unfoldable pub get_revision : Store V → String → ℕ → Result Revision
  unfolding revision_key
  get_revision s id number = do
    r ← get s revision_collection (revision_key id number)
    decode env.revisions r

  -- The mutations that a new revision and its webhook are stored by.
  abbrev pub put_hook : String → V → Option ℕ → Mutation V
  put_hook id value expected = put_of webhook_collection id value expected

  abbrev pub put_revision : String → ℕ → V → Mutation V
  put_revision id number value = put_of revision_collection (revision_key id number) value (some 0)

  abbrev pub registered_hook : Time → String → Registration V → Webhook V
  registered_hook now id input = record {
    id = id;
    name = input.name;
    scope = input.scope;
    url = input.url;
    events = unique_sorted input.events;
    object_types = unique_sorted input.object_types;
    reads = input.reads;
    active_revision = 1;
    enabled = true;
    created_at = now;
    updated_at = now;
  }

  abbrev pub revision_of : Time → String → ℕ → String → Registration V → Revision
  revision_of now id number secret input = record {
    webhook_id = id;
    number = number;
    source = input.transform.source;
    limits = effective_limits input.limits;
    signing_secret = secret;
    created_at = now;
  }

  unfoldable pub plan_register : Time → Registration V → Result (List (Mutation V) × Registered V)
  unfolding validate unique_sorted effective_limits revision_key
  plan_register now input = do
    validate input
    id ← env.random_hex
    secret ← env.random_secret
    let hook = registered_hook now id input
    hook_value ← encode env.hooks hook
    revision_value ← encode env.revisions (revision_of now id 1 secret input)
    ok (
      put_hook id hook_value (some 0) ∷ put_revision id 1 revision_value ∷ [],
      record { webhook = hook; secret = secret },
    )

  unfoldable pub register : Time → Registration V → Store V → Result (Registered V) × Store V
  unfolding plan_register
  register now input s = run_apply env.valid s (plan_register now input)

  -- The active revision is a uint64.
  abbrev pub updated_hook : Time → Registration V → Webhook V → Webhook V
  updated_hook now input old = record old {
    name = input.name;
    scope = input.scope;
    url = input.url;
    events = unique_sorted input.events;
    object_types = unique_sorted input.object_types;
    reads = input.reads;
    active_revision = (old.active_revision + 1) % word;
    enabled = true;
    updated_at = now;
  }

  unfoldable pub plan_update :
      Time → String → Registration V → Store V → Result (List (Mutation V) × Webhook V)
  unfolding validate get_revision unique_sorted effective_limits revision_key
  plan_update now id input s = do
    validate input
    r ← get s webhook_collection id
    old ← decode env.hooks r
    prior ← get_revision s id old.active_revision
    let hook = updated_hook now input old
    revision_value ←
        encode env.revisions (revision_of now id hook.active_revision prior.signing_secret input)
    hook_value ← encode env.hooks hook
    ok (
      put_revision id hook.active_revision revision_value
          ∷ put_hook id hook_value (some r.version)
          ∷ [],
      hook,
    )

  unfoldable pub update : Time → String → Registration V → Store V → Result (Webhook V) × Store V
  unfolding plan_update
  update now id input s = run_apply env.valid s (plan_update now id input s)

  -- An encoding error is dropped, and the nil value is refused by the store.
  unfoldable pub disable : Time → String → Store V → Result (Unit {0}) × Store V
  disable now id s = elim (get s webhook_collection id) [
    | err e ↦ (err e, s)
    | ok r ↦ elim (decode env.hooks r) [
      | err e ↦ (err e, s)
      | ok hook ↦
          let value =
            or_nil env.nil (encode env.hooks (record hook { enabled = false; updated_at = now })) in
          and_then (put env.valid s webhook_collection id value (some r.version)) λ _ t. (ok tt, t)
    ]
  ]

  unfoldable pub plan_rotate : Time → Time → String → Store V → Result (List (Mutation V) × String)
  unfolding get_revision revision_key
  plan_rotate now later id s = do
    r ← get s webhook_collection id
    old ← decode env.hooks r
    prior ← get_revision s id old.active_revision
    secret ← env.random_secret
    let hook = record old { active_revision = (old.active_revision + 1) % word; updated_at = now }
    revision_value ← encode env.revisions (record prior {
      number = hook.active_revision;
      signing_secret = secret;
      created_at = later;
    })
    hook_value ← encode env.hooks hook
    ok (
      put_revision id hook.active_revision revision_value
          ∷ put_hook id hook_value (some r.version)
          ∷ [],
      secret,
    )

  -- RotateSecret, which reads the time twice.
  unfoldable pub rotate_secret : Time → Time → String → Store V → Result String × Store V
  unfolding plan_rotate
  rotate_secret now later id s = run_apply env.valid s (plan_rotate now later id s)

  -- Test
  unfoldable pub test_hook : String → EventContext V → Store V → Result (Outcome V)
  unfolding get_hook get_revision
  test_hook id event_context s = do
    hook ← get_hook s id
    revision ← get_revision s id hook.active_revision
    env.execute revision.source event_context revision.limits
