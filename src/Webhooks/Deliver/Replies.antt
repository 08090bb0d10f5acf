-- ===== src/Webhooks/Deliver/Replies.antt =====
-- What a delivery is after an attempt, by the reply: `deliver` of internal/webhooks/dispatcher.go.
use barq_control_plane.Base.{
  ℕ, suc, ◌+◌, ◌≤◌, ◌<◌, String, ◌<>◌, ◌≡◌, refl, inl, inr, ◌↔◌, Bool, true, false, some, ltb, leb,
  ◌&&◌, arith, Bool-cases,
}
use barq_control_plane.Base.Decimal.{decimal}
use barq_control_plane.Auth.Types.{Time}
use barq_control_plane.Webhooks.Types.{Delivery, Revision, Reply, failed, answered, HookEnv}
use barq_control_plane.Webhooks.Deliver.Laws.{deliver_cases}
use barq_control_plane.Webhooks.Deliver.{
  backoff, deliver, is_success, is_due, post_of, reply_error, reply_status,
}

-- A response with a status of the class 2xx.
pub data Accepts : Reply → Type 0 where
  accepts : (code : ℕ) → 200 ≤ code → code ≤ 299 → Accepts (answered code)

-- What is kept of a reply that does not accept: the client's error and the status from before,
-- or the status of the response and an error that names it.
pub data Rejects (old : ℕ) : Reply → ℕ → String → Type 0 where
  no_response : (message : String) → Rejects old (failed message) old message
  below :
      (code : ℕ)
      → code < 200
      → Rejects old (answered code) code ("webhook returned HTTP " <> decimal code)
  above :
      (code : ℕ)
      → 300 ≤ code
      → Rejects old (answered code) code ("webhook returned HTTP " <> decimal code)

is_success_iff : (reply : Reply) → (is_success reply ≡ true) ↔ Accepts reply
is_success_iff (failed message) = (λ h. cc, not_failed message)
  where
    not_failed : (message : String) → Accepts (failed message) → false ≡ true
    not_failed message h = elim h [ ]
is_success_iff (answered code) = (λ h. accepts code (ground arith) (ground arith), in_range code)
  where
    in_range : (code : ℕ) → Accepts (answered code) → (leb 200 code && ltb code 300) ≡ true
    in_range _ (accepts code low high) = ground arith

is_success-Rejects :
    (old : ℕ) (reply : Reply)
    → is_success reply ≡ false
    → Rejects old reply (reply_status reply old) (reply_error reply)
is_success-Rejects old (failed message) h = no_response message
is_success-Rejects old (answered code) h = elim (Bool-cases (leb 200 code)) [
  | inl p ↦ above code (ground arith)
  | inr p ↦ below code (ground arith)
]

not_iff : {P : Type 0} (b : Bool) → (b ≡ true) ↔ P → (b ≡ false) ↔ (¬ P)
not_iff true h = (λ e. cc, λ f. absurd (f (h.0 refl)))
not_iff false h = (λ _ p. cc (h.1 p), λ _. refl)

module _ {V : Type 0} where
  -- What the delivery `d` has become, `e`, by a reply at the instant `now`.
  pub data Tried (now : Time) (reply : Reply) (d e : Delivery V) : Type 0 where
    completed :
        Accepts reply
        → e.status ≡ "completed"
        → e.last_error ≡ ""
        → e.completed_at ≡ some now
        → Tried now reply d e
    given_up :
        Rejects d.last_status reply e.last_status e.last_error
        → 8 ≤ suc d.attempts
        → e.status ≡ "dead"
        → Tried now reply d e
    waiting :
        Rejects d.last_status reply e.last_status e.last_error
        → suc d.attempts < 8
        → e.status ≡ "retry"
        → e.next_attempt_at ≡ now + backoff (suc d.attempts)
        → Tried now reply d e

  deliver-Tried :
      (now : Time) (reply : Reply) (d : Delivery V) → Tried now reply d (deliver now reply d)
  unfolding deliver
  deliver-Tried now reply d = elim (Bool-cases (is_success reply)) [
    | inl p ↦ rw p (completed ((is_success_iff reply).0 p) refl refl refl)
    | inr p ↦
        let rejected = is_success-Rejects d.last_status reply p in
        elim (Bool-cases (leb 8 (suc d.attempts))) [
          | inl q ↦ rw (p, q) (given_up rejected (ground arith) refl)
          | inr q ↦ rw (p, q) (waiting rejected (ground arith) refl refl)
        ]
  ]

  is_due-deliver :
      (now at : Time) (reply : Reply) (d : Delivery V)
      → (is_due at (deliver now reply d) ≡ true) ↔ (
          (is_success reply ≡ false) × (suc d.attempts < 8) × (now + backoff (suc d.attempts) ≤ at))
  unfolding deliver
  is_due-deliver now at reply d = elim (Bool-cases (is_success reply)) [
    | inl p ↦ rw p (ground arith)
    | inr p ↦ elim (Bool-cases (leb 8 (suc d.attempts))) [
      | inl q ↦ rw (p, q) (ground arith)
      | inr q ↦ rw (p, q) (ground arith)
    ]
  ]

  post_of-deliver :
      (env : HookEnv V) (now : Time) (reply : Reply) (revision : Revision) (d : Delivery V)
      → post_of env revision (deliver now reply d) ≡ post_of env revision d
  unfolding deliver post_of
  post_of-deliver env now reply revision d = elim (Bool-cases (is_success reply)) [
    | inl p ↦ rw p refl
    | inr p ↦ elim (Bool-cases (leb 8 (suc d.attempts))) [
      | inl q ↦ rw (p, q) refl
      | inr q ↦ rw (p, q) refl
    ]
  ]

  -- An attempt adds one to the attempts. A response with a status from 200 to 299 completes the
  -- delivery, at the instant of the reply. Any other response leaves its status and an error that
  -- names it, and no response the client's error. The delivery is then dead if this was the
  -- eighth attempt or a later one, and otherwise waits until the backoff after the reply is
  -- over. It is due again at an instant exactly if it waits and its wait is over then. The
  -- request that it sends, the signature included, stays the same.
  pub deliver_lem :
      (env : HookEnv V) (now at : Time) (reply : Reply) (revision : Revision) (d : Delivery V)
      → let e = deliver now reply d in
        (e.attempts ≡ suc d.attempts)
        × Tried now reply d e
        × ((is_due at e ≡ true)
            ↔ ((¬ Accepts reply) × (suc d.attempts < 8) × (now + backoff (suc d.attempts) ≤ at)))
        × (post_of env revision e ≡ post_of env revision d)
  deliver_lem env now at reply revision d =
      let law = not_iff (is_success reply) (is_success_iff reply) in
      let due = is_due-deliver now at reply d in
      (
        (deliver_cases now reply d).0,
        deliver-Tried now reply d,
        (
          λ h. let (failed_, less, over) = due.0 h in (law.0 failed_, less, over),
          λ (rejects, less, over). due.1 (law.1 rejects, less, over),
        ),
        post_of-deliver env now reply revision d,
      )
