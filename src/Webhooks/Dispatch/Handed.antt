-- ===== src/Webhooks/Dispatch/Handed.antt =====
-- Which webhooks an event is handed to: `processEvent` and `processHook` of
-- internal/webhooks/dispatcher.go.
use barq_control_plane.Base.{
  ℕ, String, ◌≡◌, refl, ◌⊎◌, inl, inr, true, false, List, [], ◌∷◌, Error, Result, ok, err,
  Bool-cases,
}
use barq_control_plane.Base.Lists.{All, In}
use barq_control_plane.Base.Results.{Result-cases}
use barq_control_plane.Control.Types.{Record, decode}
use barq_control_plane.Control.Store.{Store, list}
use barq_control_plane.Control.Store.Steps.{and_then}
use barq_control_plane.DataPlane.{ChangeEvent, DataPlane}
use barq_control_plane.Auth.Types.{Time}
use barq_control_plane.Webhooks.Types.{
  Webhook, Revision, Materialization, HookEnv, webhook_collection,
}
use barq_control_plane.Webhooks.Normalize.{delivery_id, matches_hook}
use barq_control_plane.Webhooks.Service.{get_revision}
use barq_control_plane.Webhooks.Dispatch.{
  process_hook, process_records, process_event, load_or_materialize, forward,
}
use barq_control_plane.Webhooks.Dispatch.Grows.{
  Grown, Grown-same, Grown-joined, IsStored, load_lem, forward-Grown,
}
use barq_control_plane.Webhooks.Dispatch.Subscribers.{Subscribes, matches_hook-Subscribes}

module _ {V : Type 0} (env : HookEnv V) (data_plane : DataPlane V) (now : Time)
    (event : ChangeEvent V) where
  -- A materialization is stored under the webhook's id, some number of a revision and the
  -- event's id.
  pub IsHanded : Webhook V → Store V → Type 0
  IsHanded hook s = (n : ℕ) × IsStored env (delivery_id hook.id n event.id) s

  IsHanded-Grown :
      (hook : Webhook V) (s t : Store V) → Grown s t → IsHanded hook s → IsHanded hook t
  unfolding IsHanded Grown IsStored
  IsHanded-Grown hook s t grown (n, (r, found)) = (n, grown _ _ r found)

  forwarded :
      (hook : Webhook V) (revision : Revision) (id : String) (s : Store V)
      (x : Result (Materialization V × ℕ) × Store V)
      → Grown s x.1
      → ((found : Materialization V × ℕ) → x.0 ≡ ok found → IsStored env id x.1)
      → let y = and_then x (λ found t. forward env now hook revision found t) in
        Grown s y.1 × ((u : Unit {0}) → y.0 ≡ ok u → IsStored env id y.1)
  unfolding Grown IsStored
  forwarded hook revision id s (err e, t) grown stored = (grown, λ u h. cc)
  forwarded hook revision id s (ok (m, version), t) grown stored =
      let more = forward-Grown env now hook revision m version t in
      (
        Grown-joined s t (forward env now hook revision (m, version) t).1 grown more,
        λ u h. let (r, found) = stored (m, version) refl in more _ _ r found,
      )

  process_hook_lem :
      (hook : Webhook V) (s : Store V)
      → let x = process_hook env data_plane now event hook s in
        Grown s x.1 × ((u : Unit {0}) → x.0 ≡ ok u → IsHanded hook x.1)
  unfolding process_hook IsHanded
  process_hook_lem hook s = elim (Result-cases (get_revision env s hook.id hook.active_revision)) [
    | inr (e, failed) ↦ rw (failed, process_hook) (Grown-same s, λ u h. cc)
    | inl (revision, was_read) ↦
        let id = delivery_id hook.id revision.number event.id in
        let x = load_or_materialize env data_plane now id hook revision event s in
        let (grown, stored) = load_lem env data_plane now id hook revision event s in
        let (grown_, stored_) = forwarded hook revision id s x grown stored in
        rw (was_read, process_hook) (grown_, λ u h. (revision.number, stored_ u h))
  ]

  -- The record is read as a webhook, and the event is handed to it if it subscribes.
  pub Served : Store V → Record V → Type 0
  Served t r =
      (hook : Webhook V) × (decode env.hooks r ≡ ok hook)
      × ((Subscribes event hook × IsHanded hook t) ⊎ (¬ Subscribes event hook))

  Served-Grown :
      (s t : Store V) (rs : List (Record V)) → Grown s t → All (Served s) rs → All (Served t) rs
  unfolding Served
  Served-Grown s t [] grown h = tt
  Served-Grown s t (r ∷ rs) grown ((hook, reads, inl (asked, handed)), h) = (
    (hook, reads, inl (asked, IsHanded-Grown hook s t grown handed)),
    Served-Grown s t rs grown h,
  )
  Served-Grown s t (r ∷ rs) grown ((hook, reads, inr apart), h) =
      ((hook, reads, inr apart), Served-Grown s t rs grown h)

  -- Some record among these is that of a webhook that subscribes.
  pub IsAsked : List (Record V) → Type 0
  IsAsked rs =
      (r : Record V) × (hook : Webhook V) × In r rs
      × (decode env.hooks r ≡ ok hook)
      × Subscribes event hook

  -- What the loop over records of webhooks has done, from the store `s` to the end `x`.
  Worked : List (Record V) → Store V → Result (Unit {0}) × Store V → Type 0
  Worked rs s x =
      Grown s x.1 × ((u : Unit {0}) → x.0 ≡ ok u → All (Served x.1) rs) × ((x.1 ≡ s) ⊎ IsAsked rs)

  handed_on :
      (hook : Webhook V) (r : Record V) (rs : List (Record V)) (s : Store V)
      (x : Result (Unit {0}) × Store V)
      → decode env.hooks r ≡ ok hook
      → Subscribes event hook
      → Grown s x.1
      → ((u : Unit {0}) → x.0 ≡ ok u → IsHanded hook x.1)
      → ((t : Store V) → Worked rs t (process_records env data_plane now event rs t))
      → Worked (r ∷ rs) s (and_then x (λ _ t. process_records env data_plane now event rs t))
  unfolding Worked IsAsked Served
  handed_on hook r rs s (err e, t) reads asks grown handed further =
      (grown, λ u h. cc, inr (r, hook, inl refl, reads, asks))
  handed_on hook r rs s (ok u, t) reads asks grown handed further =
      let (more, served, asked) = further t in
      let last = (process_records env data_plane now event rs t).1 in
      (
        Grown-joined s t last grown more,
        λ u' h. (
          (hook, reads, inl (asks, IsHanded-Grown hook t last more (handed u refl))),
          served u' h,
        ),
        inr (r, hook, inl refl, reads, asks),
      )

  passed_by :
      (hook : Webhook V) (r : Record V) (rs : List (Record V)) (s : Store V)
      (x : Result (Unit {0}) × Store V)
      → decode env.hooks r ≡ ok hook
      → ¬ Subscribes event hook
      → Worked rs s x
      → Worked (r ∷ rs) s x
  unfolding Worked IsAsked Served
  passed_by hook r rs s x reads apart (grown, served, asked) = (
    grown,
    λ u h. ((hook, reads, inr apart), served u h),
    elim asked [
      | inl same ↦ inl same
      | inr (q, other, listed, was_read, asks) ↦ inr (q, other, inr listed, was_read, asks)
    ],
  )

  module _ (hook : Webhook V) (r : Record V) (rs : List (Record V)) (s : Store V)
      (reads : decode env.hooks r ≡ ok hook) where
    process_records_passed :
        matches_hook hook event ≡ false
        → process_records env data_plane now event (r ∷ rs) s
          ≡ process_records env data_plane now event rs s
    unfolding process_records
    process_records_passed apart = rw (reads, apart, process_records) refl

    process_records_handed :
        matches_hook hook event ≡ true
        → process_records env data_plane now event (r ∷ rs) s
          ≡ and_then
              (process_hook env data_plane now event hook s)
              (λ _ t. process_records env data_plane now event rs t)
    unfolding process_records
    process_records_handed matched = rw (reads, matched, process_records) refl

  process_records_ended :
      (r : Record V) (rs : List (Record V)) (s : Store V) (e : Error)
      → decode env.hooks r ≡ err e
      → process_records env data_plane now event (r ∷ rs) s ≡ (err e, s)
  unfolding process_records
  process_records_ended r rs s e failed = rw (failed, process_records) refl

  process_records_none : (s : Store V) → process_records env data_plane now event [] s ≡ (ok tt, s)
  unfolding process_records
  process_records_none s = refl

  nothing_left : (s : Store V) → Worked [] s (ok tt, s)
  unfolding Worked
  nothing_left s = (Grown-same s, λ u h. tt, inl refl)

  failed_at : (rs : List (Record V)) (s : Store V) (e : Error) → Worked rs s (err e, s)
  unfolding Worked
  failed_at rs s e = (Grown-same s, λ u h. cc, inl refl)

  process_records_lem :
      (rs : List (Record V)) (s : Store V)
      → Worked rs s (process_records env data_plane now event rs s)
  process_records_lem [] s = rw (process_records_none s) (nothing_left s)
  process_records_lem (r ∷ rs) s = elim (Result-cases (decode env.hooks r)) [
    | inr (e, failed) ↦ rw (process_records_ended r rs s e failed) (failed_at (r ∷ rs) s e)
    | inl (hook, reads) ↦
        let law = matches_hook-Subscribes event hook in
        elim (Bool-cases (matches_hook hook event)) [
          | inr apart ↦ rw (process_records_passed hook r rs s reads apart) (
              passed_by hook r rs s (process_records env data_plane now event rs s) reads
                (λ asks. cc (law.1 asks, apart)) (process_records_lem rs s))
          | inl matched ↦
              let (grown, handed) = process_hook_lem hook s in
              rw (process_records_handed hook r rs s reads matched) (
                handed_on hook r rs s (process_hook env data_plane now event hook s) reads
                  (law.0 matched) grown handed λ t. process_records_lem rs t)
        ]
  ]

  -- If an event is processed with success, then the webhooks were listed and read, and for each
  -- of them that subscribes to the event a materialization is stored under its id, some number
  -- of a revision and the event's id. A webhook subscribes if it is enabled, has the event's
  -- scope, lists the event's type or `*`, and lists the event's object type or no object types.
  -- If none of those listed subscribes, then the store is as it was.
  pub process_event-Served :
      (s : Store V)
      → (process_event env data_plane now event s).0 ≡ ok tt
      → (rs : List (Record V)) × (list s webhook_collection "" ≡ ok rs)
        × All (Served (process_event env data_plane now event s).1) rs
        × (((process_event env data_plane now event s).1 ≡ s) ⊎ IsAsked rs)
  unfolding process_event Worked
  process_event-Served s h = elim (Result-cases (list s webhook_collection "")) [
    | inr (e, failed) ↦ cc (rw (failed, process_event) at h)
    | inl (rs, listed) ↦
        let (grown, served, asked) = process_records_lem rs s in
        rw (listed, process_event) (rs, refl, served tt (rw (listed, process_event) at h), asked)
  ]
