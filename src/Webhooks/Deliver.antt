-- ===== src/Webhooks/Deliver.antt =====
-- One attempt at a delivery: `deliver`, `backoff` and `signature` of internal/webhooks/dispatcher.go,
-- and the reset of a dead delivery in `Replay` of internal/webhooks/service.go.
pub mod Laws
pub mod Replies
use barq_control_plane.Base.{
  ℕ, zero, suc, ◌+◌, ◌*◌, ◌^◌, String, ◌==◌, ◌<>◌, if◌then◌else◌, Bool, true, false, ◌&&◌, ◌||◌,
  not, leb, ltb, Option, none, some,
}
use barq_control_plane.Base.Decimal.{decimal}
use barq_control_plane.Auth.Types.{Time}
use barq_control_plane.Webhooks.Types.{Delivery, Revision, Reply, failed, answered, Post, HookEnv}

-- A second, in nanoseconds.
abbrev pub second : ℕ
second = 1000000000

abbrev pub min : ℕ → ℕ → ℕ
min a b = if ltb a b then a else b

unfoldable pub backoff_seconds : ℕ → ℕ
backoff_seconds attempt =
    let seconds = 2 ^ min attempt 12 in if ltb 3600 seconds then 3600 else seconds

unfoldable pub backoff : ℕ → ℕ
unfolding backoff_seconds
backoff attempt = backoff_seconds attempt * second

abbrev pub max_attempts : ℕ
max_attempts = 8

-- What `deliver` reads from a reply: the status to store, and the error, unless it succeeded.
abbrev pub is_success : Reply → Bool
is_success (failed message) = false
is_success (answered code) = leb 200 code && ltb code 300

abbrev pub reply_error : Reply → String
reply_error (failed message) = message
reply_error (answered code) = "webhook returned HTTP " <> decimal code

abbrev pub reply_status : Reply → ℕ → ℕ
reply_status (failed message) old = old
reply_status (answered code) old = code

module _ {V : Type 0} where
  -- The delivery after the reply to its next attempt, at the instant of that reply.
  unfoldable pub deliver : Time → Reply → Delivery V → Delivery V
  unfolding backoff
  deliver now reply d =
      let tried = record d {
        attempts = suc d.attempts;
        last_status = reply_status reply d.last_status;
      } in
      let unsuccessful = record tried { last_error = reply_error reply } in
      if is_success reply
      then record tried { status = "completed"; last_error = ""; completed_at = some now }
      else if leb max_attempts (suc d.attempts)
      then record unsuccessful { status = "dead" }
      else record unsuccessful {
        status = "retry";
        next_attempt_at = now + backoff (suc d.attempts);
      }

  -- The test of `DeliverDue` on one delivery.
  abbrev pub is_due : Time → Delivery V → Bool
  is_due now d =
      not (not (d.status == "pending") && not (d.status == "retry") || ltb now d.next_attempt_at)

  -- What `Replay` makes of a dead delivery.
  unfoldable pub replayed : Time → Delivery V → Delivery V
  replayed now d = record d {
    status = "pending";
    stage = "delivery";
    attempts = 0;
    last_error = "";
    last_status = 0;
    next_attempt_at = now;
  }

  module _ (env : HookEnv V) where
    unfoldable pub signature : String → String → Option V → String
    signature secret event_id payload = "sha256=" <> env.hmac_hex secret (event_id <> ".") payload

    -- The request that `deliver` sends.
    unfoldable pub post_of : Revision → Delivery V → Post V
    unfolding signature
    post_of revision d = record {
      url = d.url;
      event_id = d.event_id;
      webhook_id = d.webhook_id;
      delivery_id = d.id;
      signature = signature revision.signing_secret d.event_id d.payload;
      body = d.payload;
    }
