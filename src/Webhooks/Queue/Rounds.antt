-- ===== src/Webhooks/Queue/Rounds.antt =====
-- One round of deliveries: `DeliverDue` of internal/webhooks/dispatcher.go.
use barq_control_plane.Base.{ℕ, suc, String, some, List, Result, ok, err}
use barq_control_plane.Base.Ints.{ℤ, pos, negsuc}
use barq_control_plane.Control.Types.{Record, encode}
use barq_control_plane.Control.Store.{Store, put}
use barq_control_plane.Auth.Types.{Time, or_nil}
use barq_control_plane.Webhooks.Types.{
  Delivery, Post, Reply, Revision, HookEnv, delivery_collection,
}
use barq_control_plane.Webhooks.Deliver.{deliver, post_of}
use barq_control_plane.Webhooks.Queue.{Progress, stop, deliver_all}

module _ {V : Type 0} (env : HookEnv V) (clock later : String → Time) (limit : ℕ)
    (send : String → Post V → Reply) where
  -- The end of one attempt: the loop goes on if the attempt was stored.
  abbrev after_put :
      ℕ
      → List (Record V)
      → Result (Record V) × Store V
      → (String → Post V → Reply)
      → Progress × Store V
  after_put n rs x f =
      let (written, t) = x in
      elim written [
        | err e ↦ stop n e t
        | ok stored ↦ deliver_all env clock later f limit (suc n) rs t
      ]

  -- What an attempt stores, by what the client answers.
  abbrev attempted :
      Record V
      → Delivery V
      → Revision
      → Store V
      → (String → Post V → Reply)
      → Result (Record V) × Store V
  attempted r d revision s f =
      let reply = f r.key (post_of env revision d) in
      put env.valid s delivery_collection r.key
        (or_nil env.nil (encode env.deliveries (deliver (later r.key) reply d))) (some r.version)

-- The limit that a caller gives, if it is positive, and 100 otherwise.
pub data IsLimit : ℤ → ℕ → Type 0 where
  given : (n : ℕ) → IsLimit (pos (suc n)) (suc n)
  zero_given : IsLimit (pos 0) 100
  negative_given : (n : ℕ) → IsLimit (negsuc n) 100
