-- ===== src/Tests/Dispatch.antt =====
-- An event for two webhooks, a round of deliveries and one attempt, and what the theorems say of
-- them.
use barq_control_plane.Base.{
  suc, String, ◌≡◌, ◌↔◌, refl, true, false, ◌+◌, some, none, List, [], ◌∷◌, Result, ok, ◌⊎◌, ◌≤◌,
  ◌<◌,
}
use barq_control_plane.Base.Lists.{All}
use barq_control_plane.Control.Types.{Record}
use barq_control_plane.Control.Store.{Store, list}
use barq_control_plane.DataPlane.{DataPlane}
use barq_control_plane.Webhooks.Types.{
  default_limits, Revision, Reply, Post, answered, webhook_collection,
}
use barq_control_plane.Webhooks.Deliver.{backoff, deliver, is_due, post_of}
use barq_control_plane.Webhooks.Deliver.Replies.{Accepts, Tried, deliver_lem}
use barq_control_plane.Webhooks.Dispatch.{process_event}
use barq_control_plane.Webhooks.Dispatch.Handed.{Served, IsAsked, process_event-Served}
use barq_control_plane.Tests.Hooks.{Json, hook_json, app, sample, env, queue, event}

abbrev moved : Reply
moved = answered 302

abbrev first_revision : Revision
first_revision = record {
  webhook_id = "h1";
  number = 1;
  source = "export function transform() {}";
  limits = default_limits;
  signing_secret = "s1";
  created_at = 5;
}

deliver_lem_example :
    ((deliver 20 moved sample).attempts ≡ 1)
    × Tried 20 moved sample (deliver 20 moved sample)
    × ((is_due 21 (deliver 20 moved sample) ≡ true)
        ↔ ((¬ Accepts moved) × (1 < 8) × (20 + backoff 1 ≤ 21)))
    × (post_of env first_revision (deliver 20 moved sample) ≡ post_of env first_revision sample)
deliver_lem_example = deliver_lem env 20 21 moved first_revision sample

abbrev client : String → Post Json → Reply
client key post = moved

abbrev plane : DataPlane Json
plane = record {
  read_changes = λ request. ok [];
  materialize_event =
      λ request. ok (record { event = event; before = none; after = none; related = none });
}

-- The first webhook wants the event, and the second one is disabled.
abbrev hooked : Store Json
hooked = record queue {
  records =
      record {
        collection = webhook_collection;
        key = "h1";
        value = hook_json "h1" "orders" app "https://example.com" ("created" ∷ []) [] 1 true 5 5;
        version = 1;
      }
      ∷ record {
        collection = webhook_collection;
        key = "h2";
        value = hook_json "h2" "off" app "https://example.com" ("created" ∷ []) [] 1 false 5 5;
        version = 1;
      }
      ∷ queue.records;
}

process_event-Served_example :
    (rs : List (Record Json)) × (list hooked webhook_collection "" ≡ ok rs)
    × All (Served env plane 9 event (process_event env plane 9 event hooked).1) rs
    × (((process_event env plane 9 event hooked).1 ≡ hooked) ⊎ IsAsked env plane 9 event rs)
unfolding process_event list barq_control_plane.Base.Text.starts_with
    barq_control_plane.Control.Store.get barq_control_plane.Control.Store.find_record
    barq_control_plane.Control.Store.put barq_control_plane.Control.Store.apply
    barq_control_plane.Control.Store.plan barq_control_plane.Control.Store.put_results
    barq_control_plane.Control.Store.perform_all
process_event-Served_example = process_event-Served env plane 9 event hooked refl
