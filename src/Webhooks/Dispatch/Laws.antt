-- ===== src/Webhooks/Dispatch/Laws.antt =====
-- What creating a delivery does, however often it is repeated.
use barq_control_plane.Base.{String, ◌≡◌, refl, ◌⊎◌, inl, inr, some, Error, Result, ok, err, arith}
use barq_control_plane.Control.Types.{Record, encode}
use barq_control_plane.Control.Store.{Store, find_record, put}
use barq_control_plane.Control.Store.Frames.{put_new_keeps}
use barq_control_plane.Auth.Types.{or_nil}
use barq_control_plane.Webhooks.Types.{Delivery, HookEnv, delivery_collection}
use barq_control_plane.Webhooks.Dispatch.{create_delivery, unless_conflict}

pub unless_conflict-cases :
    {V : Type 0} (x : Result (Record V) × Store V)
    → ((r : Record V) × (x.0 ≡ ok r) × ((unless_conflict x).1 ≡ x.1))
      ⊎ ((e : Error) × (x.0 ≡ err e) × ((unless_conflict x).1 ≡ x.1))
unless_conflict-cases (ok r, s) = inl (r, refl, refl)
unless_conflict-cases (err e, s) = inr (e, refl, ground arith)

module _ {V : Type 0} (env : HookEnv V) where
  -- Creating a delivery leaves every stored record as it is, also one that is stored under the
  -- delivery's own id.
  pub create_delivery_keeps :
      (d : Delivery V) (s : Store V) (c k : String) (r : Record V)
      → find_record c k s.records ≡ some r
      → find_record c k (create_delivery env d s).1.records ≡ some r
  unfolding create_delivery
  create_delivery_keeps d s c k r found =
      let value = or_nil env.nil (encode env.deliveries d) in
      let kept = put_new_keeps env.valid s delivery_collection d.id value c k r found in
      elim (unless_conflict-cases (put env.valid s delivery_collection d.id value (some 0))) [
        | inr (e, failed, same) ↦ rw same kept
        | inl (q, written, same) ↦ rw same kept
      ]
