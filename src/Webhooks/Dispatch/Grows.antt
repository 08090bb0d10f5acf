-- ===== src/Webhooks/Dispatch/Grows.antt =====
-- The records that the work on an event stores stay: `processHook` of
-- internal/webhooks/dispatcher.go and what it calls.
use barq_control_plane.Base.{
  ℕ, String, ◌≡◌, refl, ap, ◌==◌, Bool, true, false, Option, some, none, eq_refl, Result, ok, err,
  if◌then◌else◌, inl, inr, Bool-cases, is_code, not_found, conflict,
}
use barq_control_plane.Base.Results.{Result-cases, >>=-eq-ok}
use barq_control_plane.Control.Types.{Record, encode}
use barq_control_plane.Control.Store.{Store, find_record, get, put}
use barq_control_plane.Control.Store.Calls.{get-ok, put-ok, put-err}
use barq_control_plane.Control.Store.Laws.{find-put_record}
use barq_control_plane.Control.Store.Steps.{and_then}
use barq_control_plane.DataPlane.{ChangeEvent, DataPlane, error_text}
use barq_control_plane.Auth.Types.{Time, or_nil}
use barq_control_plane.Webhooks.Types.{
  Webhook, Revision, Materialization, Delivery, HookEnv, materialization_collection,
  delivery_collection,
}
use barq_control_plane.Webhooks.Dispatch.{
  create_delivery, update_materialization, ensure_delivery, transform_materialization, forward,
  load_or_materialize, created_or_existing, read_materialization, pending_delivery,
  new_materialization, dead_delivery_of,
}
use barq_control_plane.Webhooks.Dispatch.Laws.{unless_conflict-cases}

module _ {V : Type 0} where
  -- Wherever there was a record, there is one.
  unfoldable pub Grown : Store V → Store V → Type 0
  Grown s t =
      (c k : String) (r : Record V)
      → find_record c k s.records ≡ some r
      → (q : Record V) × (find_record c k t.records ≡ some q)

  pub Grown-same : (s : Store V) → Grown s s
  unfolding Grown
  Grown-same s c k r found = (r, found)

  pub Grown-joined : (s t u : Store V) → Grown s t → Grown t u → Grown s u
  unfolding Grown
  Grown-joined s t u f g c k r found = let (q, there) = f c k r found in g c k q there

  put-Grown :
      (valid : V → Bool) (s : Store V) (a b : String) (v : V) (expected : Option ℕ)
      → Grown s (put valid s a b v expected).1
  unfolding Grown
  put-Grown valid s a b v expected c k r found =
      elim (Result-cases (put valid s a b v expected).0) [
        | inr (e, f) ↦ rw (put-err valid s a b v expected f) (r, found)
        | inl (q, e) ↦
            rw ((put-ok valid s a b v expected e).stored, find-put_record q s.records c k)
              (chosen (find_record c k s.records) q _ found)
      ]
    where
      chosen :
          (o : Option (Record V)) (q : Record V) (b : Bool) {r : Record V}
          → o ≡ some r
          → (x : Record V) × ((if b then some q else o) ≡ some x)
      chosen o q true h = (q, refl)
      chosen o q false {r} h = (r, h)

  then-Grown :
      {A B : Type 0} (s : Store V) (x : Result A × Store V) (f : A → Store V → Result B × Store V)
      → Grown s x.1
      → ((a : A) (t : Store V) → Grown s t → Grown s (f a t).1)
      → Grown s (and_then x f).1
  then-Grown s (ok a, t) f h next = next a t h
  then-Grown s (err e, t) f h next = h

  module _ (env : HookEnv V) where
    create_delivery-Grown : (d : Delivery V) (s : Store V) → Grown s (create_delivery env d s).1
    unfolding create_delivery
    create_delivery-Grown d s =
        let x =
          put env.valid s delivery_collection d.id (or_nil env.nil (encode env.deliveries d))
            (some 0) in
        let kept = put-Grown env.valid s delivery_collection d.id _ (some 0) in
        elim (unless_conflict-cases x) [
          | inr (e, failed, same) ↦ rw same kept
          | inl (q, written, same) ↦ rw same kept
        ]

    update-Grown :
        (m : Materialization V) (version : ℕ) (s : Store V)
        → Grown s (update_materialization env m version s).1
    unfolding update_materialization
    update-Grown m version s =
        then-Grown s _ _ (put-Grown env.valid s materialization_collection m.id _ (some version))
          λ a t h. h

    update_create-Grown :
        (m : Materialization V) (version : ℕ) (d : Delivery V) (s : Store V)
        → Grown s
            (and_then (update_materialization env m version s) (λ _ t. create_delivery env d t)).1
    update_create-Grown m version d s =
        then-Grown s (update_materialization env m version s) (λ _ t. create_delivery env d t)
          (update-Grown m version s) λ a t h. Grown-joined s t _ h (create_delivery-Grown d t)

    transform-Grown :
        (now : Time) (hook : Webhook V) (revision : Revision) (m : Materialization V) (version : ℕ)
        (s : Store V)
        → Grown s (transform_materialization env now hook revision m version s).1
    unfolding transform_materialization
    transform-Grown now hook revision m version s =
        let at = record m { transformed_at = some now } in
        elim (Result-cases (env.execute revision.source m.input revision.limits)) [
          | inr (e, failed) ↦
              rw (failed, transform_materialization)
                (update_create-Grown (record at { status = "dead"; error = error_text e }) version
                  (dead_delivery_of (error_text e) (pending_delivery now hook revision m none)) s)
          | inl (result, ran) ↦ elim (Bool-cases result.matched) [
            | inr skipped ↦
                rw (ran, skipped, transform_materialization)
                  (update-Grown (record at { status = "skipped" }) version s)
            | inl matched ↦
                rw (ran, matched, transform_materialization)
                  (update_create-Grown (record at { status = "rendered"; payload = result.payload })
                    version (pending_delivery now hook revision m result.payload) s)
          ]
        ]

    ensure-Grown :
        (now : Time) (hook : Webhook V) (revision : Revision) (m : Materialization V) (s : Store V)
        → Grown s (ensure_delivery env now hook revision m s).1
    unfolding ensure_delivery
    ensure-Grown now hook revision m s = create_delivery-Grown _ s

    pub forward-Grown :
        (now : Time) (hook : Webhook V) (revision : Revision) (m : Materialization V) (version : ℕ)
        (s : Store V)
        → Grown s (forward env now hook revision (m, version) s).1
    unfolding forward
    forward-Grown now hook revision m version s = elim (Bool-cases (m.status == "stored")) [
      | inl p ↦ rw (p) (transform-Grown now hook revision m version s)
      | inr p ↦ elim (Bool-cases (m.status == "rendered")) [
        | inl q ↦ rw (p, q) (ensure-Grown now hook revision m s)
        | inr q ↦ rw (p, q) (chosen (m.status == "dead"))
      ]
    ]
      where
        chosen :
            (b : Bool)
            → Grown s (if b then ensure_delivery env now hook revision m s else (ok tt, s)).1
        chosen true = ensure-Grown now hook revision m s
        chosen false = Grown-same s

    read_found :
        (s : Store V) (id : String) {found : Materialization V × ℕ}
        → read_materialization env s id ≡ ok found
        → (r : Record V) × (find_record materialization_collection id s.records ≡ some r)
    unfolding read_materialization
    read_found s id h =
        let (r, got, _) = >>=-eq-ok (get s materialization_collection id) _ h in
        (r, get-ok s materialization_collection id got)

    -- A materialization is in the store.
    unfoldable pub IsStored : String → Store V → Type 0
    IsStored id s = (r : Record V) × (find_record materialization_collection id s.records ≡ some r)

    created_lem :
        (id : String) (m : Materialization V) (s : Store V) (x : Result (Record V) × Store V)
        → Grown s x.1
        → ((r : Record V) → x.0 ≡ ok r → IsStored id x.1)
        → Grown s (created_or_existing env id m x).1
          × ((found : Materialization V × ℕ)
              → (created_or_existing env id m x).0 ≡ ok found
              → IsStored id (created_or_existing env id m x).1)
    unfolding created_or_existing IsStored
    created_lem id m s (ok r, t) grown there = (grown, λ found h. there r refl)
    created_lem id m s (err e, t) grown there = elim (Bool-cases (is_code e conflict)) [
      | inl p ↦ rw p (grown, λ found h. read_found t id h)
      | inr p ↦ rw p (grown, λ found h. cc)
    ]

    put-IsStored :
        (s : Store V) (id : String) (v : V) (r : Record V)
        → (put env.valid s materialization_collection id v (some 0)).0 ≡ ok r
        → IsStored id (put env.valid s materialization_collection id v (some 0)).1
    unfolding IsStored
    put-IsStored s id v r h =
        let p = put-ok env.valid s materialization_collection id v (some 0) h in
        (
          r,
          rw
              (
                p.stored,
                find-put_record r s.records materialization_collection id,
                ap (λ (q : Record V). q.collection) p.named,
                ap (λ (q : Record V). q.key) p.named,
                eq_refl id,
              )
              refl,
        )

    pub load_lem :
        (data_plane : DataPlane V) (now : Time) (id : String) (hook : Webhook V)
        (revision : Revision) (event : ChangeEvent V) (s : Store V)
        → let x = load_or_materialize env data_plane now id hook revision event s in
          Grown s x.1 × ((found : Materialization V × ℕ) → x.0 ≡ ok found → IsStored id x.1)
    unfolding load_or_materialize IsStored
    load_lem data_plane now id hook revision event s =
        elim (Result-cases (get s materialization_collection id)) [
          | inl (r, got) ↦
              rw (got, load_or_materialize)
                (Grown-same s, λ found h. (r, get-ok s materialization_collection id got))
          | inr (e, missing) ↦ elim (Bool-cases (is_code e not_found)) [
            | inr other ↦ rw (missing, other, load_or_materialize) (Grown-same s, λ found h. cc)
            | inl absent ↦
                elim (Result-cases (
                  data_plane.materialize_event
                    (record { scope = event.scope; event_id = event.id; reads = hook.reads }))) [
                      | inr (f, failed) ↦
                          rw (missing, absent, failed, load_or_materialize)
                            (Grown-same s, λ found h. cc)
                      | inl (event_context, was_read) ↦
                          let m =
                            new_materialization env now id hook revision event event_context in
                          let v = or_nil env.nil (encode env.materializations m) in
                          rw (missing, absent, was_read, load_or_materialize)
                            (created_lem id m s
                              (put env.valid s materialization_collection id v (some 0))
                              (put-Grown env.valid s materialization_collection id v (some 0))
                              (put-IsStored s id v))
                    ]
          ]
        ]
