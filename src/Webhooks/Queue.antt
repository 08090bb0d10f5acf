-- ===== src/Webhooks/Queue.antt =====
-- The stored deliveries: `List`, `Replay` and `OperationalHealth` of internal/webhooks/service.go,
-- and `DeliverDue` of internal/webhooks/dispatcher.go.
pub mod Laws
pub mod Rounds
use barq_control_plane.Base.{
  ℕ, zero, suc, ◌+◌, ◌<>◌, String, ◌==◌, if◌then◌else◌, Bool, true, false, not, eqb, Option, none,
  some, List, [], ◌∷◌, Error, Result, ok, err, ◌>>=◌,
}
use barq_control_plane.Base.Ints.{ℤ, pos, negsuc, is_not_positive}
use barq_control_plane.Base.Sorting.{sort_by}
use barq_control_plane.Control.Types.{Record, encode, decode}
use barq_control_plane.Control.Store.{Store, get, list, put}
use barq_control_plane.DataPlane.{same_scope}
use barq_control_plane.Auth.Types.{Time, or_nil}
use barq_control_plane.Auth.Tenants.{Scope}
use barq_control_plane.Webhooks.Types.{
  Webhook, Delivery, OperationalHealth, Post, Reply, HookEnv, webhook_collection,
  delivery_collection,
}
use barq_control_plane.Webhooks.Deliver.{deliver, is_due, replayed, post_of}
use barq_control_plane.Webhooks.Service.{get_hook, get_revision, count_delivery, created_leb}

-- A count, and the error that ended the loop, if one did.
pub record Progress : Type 0 where
  pub count : ℕ
  pub failure : Option Error

abbrev pub stop : {V : Type 0} → ℕ → Error → Store V → Progress × Store V
stop n e s = (record { count = n; failure = some e }, s)

abbrev pub done : {V : Type 0} → ℕ → Store V → Progress × Store V
done n s = (record { count = n; failure = none }, s)

-- The limit that is used: 100, unless a positive one is given.
abbrev pub due_limit : ℤ → ℕ
due_limit (pos zero) = 100
due_limit (pos (suc n)) = suc n
due_limit (negsuc n) = 100

-- Whether a scope is asked for and differs.
abbrev pub in_scope : {V : Type 0} → Option Scope → Webhook V → Bool
in_scope none hook = true
in_scope (some scope) hook = same_scope hook.scope scope

module _ {V : Type 0} (env : HookEnv V) where
  unfoldable pub decode_hooks : Option Scope → List (Record V) → Result (List (Webhook V))
  decode_hooks scope [] = ok []
  decode_hooks scope (r ∷ rs) = do
    hook ← decode env.hooks r
    hooks ← decode_hooks scope rs
    ok (if in_scope scope hook then hook ∷ hooks else hooks)

  abbrev pub by_creation : Result (List (Webhook V)) → Result (List (Webhook V))
  by_creation (ok hooks) = ok (sort_by created_leb hooks)
  by_creation (err e) = err e

  -- List
  unfoldable pub list_hooks : Option Scope → Store V → Result (List (Webhook V))
  unfolding decode_hooks sort_by
  list_hooks scope s = do
    records ← list s webhook_collection ""
    by_creation (decode_hooks scope records)

  unfoldable pub count_records : List (Record V) → OperationalHealth → Result OperationalHealth
  unfolding count_delivery
  count_records [] health = ok health
  count_records (r ∷ rs) health = do
    d ← decode env.deliveries r
    count_records rs (count_delivery d health)

  unfoldable pub count_hooks :
      (Scope → Bool) → Store V → List (Webhook V) → OperationalHealth → Result OperationalHealth
  unfolding count_records
  count_hooks visible s [] health = ok health
  count_hooks visible s (hook ∷ hooks) health =
      let skipped = count_hooks visible s hooks health in
      if not (visible hook.scope) then skipped else do
        records ← list s delivery_collection (hook.id <> "/")
        counted ← count_records records health
        count_hooks visible s hooks counted

  -- A nil `visible` is the test that all scopes pass.
  unfoldable pub operational_health : (Scope → Bool) → Store V → Result OperationalHealth
  unfolding list_hooks count_hooks
  operational_health visible s = do
    hooks ← list_hooks none s
    count_hooks visible s hooks (record {
      status = "ok";
      pending = 0;
      retrying = 0;
      dead_transform = 0;
      dead_delivery = 0;
      oldest_pending_at = none;
    })

  -- The loop of `Replay`; `clock` is the reading of `s.now()` at each count.
  unfoldable pub replay_all : (ℕ → Time) → ℕ → List (Record V) → Store V → Progress × Store V
  unfolding replayed
  replay_all clock n [] s = done n s
  replay_all clock n (r ∷ rs) s = elim (decode env.deliveries r) [
    | err e ↦ stop n e s
    | ok d ↦
        if not (d.status == "dead")
        then replay_all clock n rs s
        else let value = or_nil env.nil (encode env.deliveries (replayed (clock n) d)) in
          let (written, t) = put env.valid s delivery_collection r.key value (some r.version) in
          elim written [ err e ↦ stop n e t | ok stored ↦ replay_all clock (suc n) rs t ]
  ]

  unfoldable pub replay : (ℕ → Time) → String → Store V → Progress × Store V
  unfolding get_hook replay_all
  replay clock id s = elim (get_hook env s id) [
    | err e ↦ stop 0 e s
    | ok hook ↦ elim (list s delivery_collection (id <> "/")) [
      | err e ↦ stop 0 e s
      | ok records ↦ replay_all clock 0 records s
    ]
  ]

  -- The loop of `DeliverDue`. For each record, by its key, `clock` is the time read before the
  -- test, `send` is how the client answers, and `later` the time read after that.
  unfoldable pub deliver_all :
      (clock later : String → Time) (send : String → Post V → Reply) (limit : ℕ)
      → ℕ
      → List (Record V)
      → Store V
      → Progress × Store V
  unfolding deliver get_revision post_of
  deliver_all clock later send limit n [] s = done n s
  deliver_all clock later send limit n (r ∷ rs) s =
      if eqb n limit then done n s else elim (decode env.deliveries r) [
        | err e ↦ stop n e s
        | ok d ↦
            if not (is_due (clock r.key) d)
            then deliver_all clock later send limit n rs s
            else elim (get_revision env s d.webhook_id d.revision) [
              | err e ↦ stop n e s
              | ok revision ↦
                  let sent = deliver (later r.key) (send r.key (post_of env revision d)) d in
                  let value = or_nil env.nil (encode env.deliveries sent) in
                  let (written, t) =
                    put env.valid s delivery_collection r.key value (some r.version) in
                  elim written [
                    | err e ↦ stop n e t
                    | ok stored ↦ deliver_all clock later send limit (suc n) rs t
                  ]
            ]
      ]

  unfoldable pub deliver_listed :
      (clock later : String → Time) (send : String → Post V → Reply)
      → ℕ
      → Store V
      → Result (List (Record V))
      → Progress × Store V
  unfolding deliver_all
  deliver_listed clock later send limit s (ok records) =
      deliver_all clock later send limit 0 records s
  deliver_listed clock later send limit s (err e) = stop 0 e s

  unfoldable pub deliver_due :
      (clock later : String → Time) (send : String → Post V → Reply)
      → ℤ
      → Store V
      → Progress × Store V
  unfolding deliver_listed
  deliver_due clock later send limit s =
      deliver_listed clock later send (due_limit limit) s (list s delivery_collection "")
