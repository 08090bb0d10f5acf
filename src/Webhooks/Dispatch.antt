-- ===== src/Webhooks/Dispatch.antt =====
-- From a change event to a stored delivery: `PollOnce` and what it calls, in
-- internal/webhooks/dispatcher.go. `now` is the reading of `d.now()` for one event.
pub mod Grows
pub mod Handed
pub mod Laws
pub mod Subscribers
use barq_control_plane.Base.{
  ℕ, zero, suc, ◌+◌, ◌%◌, String, ◌==◌, ◌<>◌, if◌then◌else◌, Bool, true, false, not, Option, none,
  some, List, [], ◌∷◌, Error, Result, ok, err, ◌>>=◌, is_code, not_found, conflict,
}
use barq_control_plane.Control.Types.{Record, encode, decode}
use barq_control_plane.Control.Checks.{word}
use barq_control_plane.Control.Store.{Store, get, list, put}
use barq_control_plane.Control.Store.Steps.{and_then}
use barq_control_plane.DataPlane.{ChangeEvent, EventContext, DataPlane, error_text}
use barq_control_plane.Auth.Types.{Time, or_nil}
use barq_control_plane.Auth.Tenants.{Scope}
use barq_control_plane.Webhooks.Types.{
  Webhook, Revision, Materialization, Delivery, Cursor, Outcome, HookEnv, webhook_collection,
  materialization_collection, delivery_collection, cursor_collection,
}
use barq_control_plane.Webhooks.Normalize.{delivery_id, cursor_key, matches_hook}
use barq_control_plane.Webhooks.Service.{get_revision}
use barq_control_plane.Webhooks.Queue.{Progress, stop, done}

module _ {V : Type 0} where
  -- A new delivery of a webhook's event: pending, unless its transform failed.
  abbrev pub pending_delivery :
      Time → Webhook V → Revision → Materialization V → Option V → Delivery V
  pending_delivery now hook revision m payload = record {
    id = delivery_id hook.id revision.number m.event_id;
    webhook_id = hook.id;
    revision = revision.number;
    event_id = m.event_id;
    url = hook.url;
    payload = payload;
    status = "pending";
    stage = "delivery";
    attempts = 0;
    last_status = 0;
    last_error = "";
    next_attempt_at = now;
    created_at = now;
    completed_at = none;
  }

  abbrev pub dead_delivery_of : String → Delivery V → Delivery V
  dead_delivery_of message d = record d {
    status = "dead";
    stage = "transform";
    last_error = message;
  }

  -- A conflict of a creation is no error: the record is there.
  abbrev pub unless_conflict : Result (Record V) × Store V → Result (Unit {0}) × Store V
  unless_conflict (ok r, s) = (ok tt, s)
  unless_conflict (err e, s) = if is_code e conflict then (ok tt, s) else (err e, s)

module _ {V : Type 0} (env : HookEnv V) where
  unfoldable pub create_delivery : Delivery V → Store V → Result (Unit {0}) × Store V
  create_delivery d s =
      unless_conflict (
        put env.valid s delivery_collection d.id (or_nil env.nil (encode env.deliveries d))
          (some 0))

  unfoldable pub update_materialization :
      Materialization V → ℕ → Store V → Result (Unit {0}) × Store V
  update_materialization m version s =
      and_then
        (put env.valid s materialization_collection m.id
          (or_nil env.nil (encode env.materializations m)) (some version))
        λ r t. (ok tt, t)

  unfoldable pub ensure_delivery :
      Time → Webhook V → Revision → Materialization V → Store V → Result (Unit {0}) × Store V
  unfolding create_delivery delivery_id
  ensure_delivery now hook revision m s =
      let d = pending_delivery now hook revision m m.payload in
      create_delivery (if m.status == "dead" then dead_delivery_of m.error d else d) s

  unfoldable pub transform_materialization :
      Time → Webhook V → Revision → Materialization V → ℕ → Store V → Result (Unit {0}) × Store V
  unfolding create_delivery update_materialization delivery_id
  transform_materialization now hook revision m version s =
      let at = record m { transformed_at = some now } in
      elim (env.execute revision.source m.input revision.limits) [
        | err e ↦
            let message = error_text e in
            and_then
              (update_materialization (record at { status = "dead"; error = message }) version s)
              λ _ t.
                create_delivery
                  (dead_delivery_of message (pending_delivery now hook revision m none)) t
        | ok result ↦
            if not result.matched
            then update_materialization (record at { status = "skipped" }) version s
            else and_then
                (update_materialization
                  (record at { status = "rendered"; payload = result.payload }) version s)
                λ _ t. create_delivery (pending_delivery now hook revision m result.payload) t
      ]

  -- A materialization that is stored, with its version.
  unfoldable pub read_materialization : Store V → String → Result (Materialization V × ℕ)
  read_materialization s id = do
    r ← get s materialization_collection id
    m ← decode env.materializations r
    ok (m, r.version)

  abbrev pub new_materialization :
      Time → String → Webhook V → Revision → ChangeEvent V → EventContext V → Materialization V
  new_materialization now id hook revision event event_context = record {
    id = id;
    webhook_id = hook.id;
    revision = revision.number;
    event_id = event.id;
    input = event_context;
    payload = none;
    status = "stored";
    error = "";
    created_at = now;
    transformed_at = none;
  }

  -- After a creation: what was created, or, on a conflict, what is there.
  unfoldable pub created_or_existing :
      String
      → Materialization V
      → Result (Record V) × Store V
      → Result (Materialization V × ℕ) × Store V
  unfolding read_materialization
  created_or_existing id m (ok r, s) = (ok (m, r.version), s)
  created_or_existing id m (err e, s) =
      if is_code e conflict then (read_materialization s id, s) else (err e, s)

  unfoldable pub load_or_materialize :
      DataPlane V
      → Time
      → String
      → Webhook V
      → Revision
      → ChangeEvent V
      → Store V
      → Result (Materialization V × ℕ) × Store V
  unfolding created_or_existing
  load_or_materialize data_plane now id hook revision event s =
      elim (get s materialization_collection id) [
        | ok r ↦ (decode env.materializations r >>= (λ m. ok (m, r.version)), s)
        | err e ↦
            if not (is_code e not_found)
            then (err e, s)
            else elim (data_plane.materialize_event
                (record { scope = event.scope; event_id = event.id; reads = hook.reads })) [
                  | err e' ↦ (err e', s)
                  | ok event_context ↦
                      let m = new_materialization now id hook revision event event_context in
                      created_or_existing id m (
                        put env.valid s materialization_collection id
                          (or_nil env.nil (encode env.materializations m)) (some 0))
                ]
      ]

  -- What is done with a materialization, by its status.
  unfoldable pub forward :
      Time → Webhook V → Revision → Materialization V × ℕ → Store V → Result (Unit {0}) × Store V
  unfolding transform_materialization ensure_delivery
  forward now hook revision (m, version) s =
      if m.status == "stored"
      then transform_materialization now hook revision m version s
      else if m.status == "rendered"
      then ensure_delivery now hook revision m s
      else if m.status == "dead"
      then ensure_delivery now hook revision m s
      else (ok tt, s)

  unfoldable pub process_hook :
      DataPlane V → Time → ChangeEvent V → Webhook V → Store V → Result (Unit {0}) × Store V
  unfolding get_revision load_or_materialize forward delivery_id
  process_hook data_plane now event hook s =
      elim (get_revision env s hook.id hook.active_revision) [
        | err e ↦ (err e, s)
        | ok revision ↦
            let id = delivery_id hook.id revision.number event.id in
            and_then (load_or_materialize data_plane now id hook revision event s)
              λ found t. forward now hook revision found t
      ]

  unfoldable pub process_records :
      DataPlane V → Time → ChangeEvent V → List (Record V) → Store V → Result (Unit {0}) × Store V
  unfolding matches_hook process_hook
  process_records data_plane now event [] s = (ok tt, s)
  process_records data_plane now event (r ∷ rs) s = elim (decode env.hooks r) [
    | err e ↦ (err e, s)
    | ok hook ↦
        if not (matches_hook hook event)
        then process_records data_plane now event rs s
        else and_then (process_hook data_plane now event hook s)
            λ _ t. process_records data_plane now event rs t
  ]

  unfoldable pub process_event :
      DataPlane V → Time → ChangeEvent V → Store V → Result (Unit {0}) × Store V
  unfolding process_records
  process_event data_plane now event s = elim (list s webhook_collection "") [
    | err e ↦ (err e, s)
    | ok records ↦ process_records data_plane now event records s
  ]

  -- The cursor and the version of its record, both zero where there is none.
  unfoldable pub load_cursor : Store V → Scope → Result (ℕ × ℕ)
  unfolding cursor_key
  load_cursor s scope = elim (get s cursor_collection (cursor_key scope)) [
    | err e ↦ if is_code e not_found then ok (0, 0) else err e
    | ok r ↦ do c ← decode env.cursors r; ok (c.cursor, r.version)
  ]

  unfoldable pub save_cursor : Scope → ℕ → ℕ → Store V → Result (Unit {0}) × Store V
  unfolding cursor_key
  save_cursor scope cursor prior s =
      and_then
        (put env.valid s cursor_collection (cursor_key scope)
          (or_nil env.nil (encode env.cursors (record { scope = scope; cursor = cursor })))
          (some prior))
        λ r t. (ok tt, t)

  -- The loop of `PollOnce`; the version of the cursor's record is a uint64.
  unfoldable pub poll_events :
      DataPlane V → (ℕ → Time) → Scope → ℕ → ℕ → List (ChangeEvent V) → Store V → Progress × Store V
  unfolding process_event save_cursor
  poll_events data_plane clock scope version n [] s = done n s
  poll_events data_plane clock scope version n (event ∷ events) s =
      let (processed, t) = process_event data_plane (clock n) event s in
      let (saved, u) = save_cursor scope event.cursor version t in
      elim processed [
        | err e ↦ stop n e t
        | ok _ ↦ elim saved [
          | err e ↦ stop n e u
          | ok _ ↦ poll_events data_plane clock scope ((version + 1) % word) (suc n) events u
        ]
      ]

  unfoldable pub poll_once : DataPlane V → (ℕ → Time) → Scope → Store V → Progress × Store V
  unfolding load_cursor poll_events
  poll_once data_plane clock scope s = elim (load_cursor s scope) [
    | err e ↦ stop 0 e s
    | ok (cursor, version) ↦
        elim (data_plane.read_changes (record { scope = scope; after = cursor; limit = 100 })) [
          | err e ↦ stop 0 e s
          | ok events ↦ poll_events data_plane clock scope version 0 events s
        ]
  ]
