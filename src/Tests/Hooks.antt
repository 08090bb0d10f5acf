-- ===== src/Tests/Hooks.antt =====
-- A registered webhook, its event and its deliveries, and what the theorems on webhooks say of them.
-- Its JSON can hold webhooks without related reads.
use barq_control_plane.Base.{
  ℕ, String, ◌≡◌, refl, sym, ap, Bool, true, false, ◌*◌, ◌^◌, none, some, List, [], ◌∷◌, Result, ok,
  err, plain, arith, inl, ◌≤◌,
}
use barq_control_plane.Base.Ints.{negsuc}
use barq_control_plane.Base.Results.{ok-injective}
use barq_control_plane.Control.Types.{Record, Codec, IsCodec}
use barq_control_plane.Control.Store.{Store, find_record}
use barq_control_plane.DataPlane.{ChangeEvent, RelatedRead}
use barq_control_plane.Auth.Tenants.{Scope}
use barq_control_plane.Webhooks.Types.{
  default_limits, Webhook, Revision, Registration, Delivery, Reply, failed, HookEnv, IsLawfulHooks,
  delivery_collection,
}
use barq_control_plane.Webhooks.Normalize.{effective_limits, unique_sorted}
use barq_control_plane.Webhooks.Normalize.Laws.{
  IsLimited, effective_limits-IsLimited, delivery_id-injective, IsUniqueSorted,
  unique_sorted-IsUniqueSorted,
}
use barq_control_plane.Webhooks.Deliver.{backoff, second, deliver}
use barq_control_plane.Webhooks.Deliver.Laws.{
  backoff_lem, IsDelivery, created, next, attempted, Steps-IsDelivery,
}
use barq_control_plane.Webhooks.Service.{register, registered_hook, revision_of}
use barq_control_plane.Webhooks.Service.Laws.{IsStored, register-ok}
use barq_control_plane.Webhooks.Dispatch.{create_delivery}
use barq_control_plane.Webhooks.Dispatch.Laws.{create_delivery_keeps}

pub data Json : Type 0 where
  hook_json :
      (id name : String) (scope : Scope) (url : String) (events object_types : List String)
      (active_revision : ℕ) (enabled : Bool) (created_at updated_at : ℕ)
      → Json
  revision_json : Revision → Json
  text_json : String → Json

abbrev unreadable : {A : Type 0} → Result A
unreadable = err (plain "unexpected JSON")

abbrev write_with : List (RelatedRead Json) → Webhook Json → Result Json
write_with [] w = ok (
    hook_json w.id w.name w.scope w.url w.events w.object_types w.active_revision w.enabled
      w.created_at w.updated_at)
write_with (read ∷ reads) w = unreadable

abbrev write_hook : Webhook Json → Result Json
write_hook w = write_with w.reads w

abbrev read_hook : Json → Result (Webhook Json)
read_hook
      (hook_json id name scope url events object_types active_revision enabled created_at
        updated_at) =
    ok (record {
      id = id;
      name = name;
      scope = scope;
      url = url;
      events = events;
      object_types = object_types;
      reads = [];
      active_revision = active_revision;
      enabled = enabled;
      created_at = created_at;
      updated_at = updated_at;
    })
read_hook (revision_json r) = unreadable
read_hook (text_json t) = unreadable

abbrev hook_codec : Codec Json (Webhook Json)
hook_codec = record { marshal = write_hook; unmarshal = read_hook }

abbrev revision_codec : Codec Json Revision
revision_codec = record {
  marshal = λ r. ok (revision_json r);
  unmarshal = λ v. elim v [
    | hook_json id name scope url events object_types active_revision enabled created_at
          updated_at ↦
        unreadable
    | revision_json r ↦ ok r
    | text_json t ↦ unreadable
  ];
}

reads_back_with :
    (reads : List (RelatedRead Json)) (w : Webhook Json) (v : Json)
    → write_with reads w ≡ ok v
    → read_hook v ≡ ok (record w { reads = reads })
reads_back_with [] w v h = ap read_hook (sym (ok-injective h))
reads_back_with (read ∷ reads) w v h = cc

reads_back : (w : Webhook Json) (v : Json) → write_hook w ≡ ok v → read_hook v ≡ ok w
reads_back w v h = reads_back_with w.reads w v h

hook_law : IsCodec (λ v. true) hook_codec
hook_law = record { unmarshal-marshal = reads_back; valid-marshal = λ w v e. refl }

revision_law : IsCodec (λ v. true) revision_codec
revision_law = record {
  unmarshal-marshal = λ r v e. ap revision_codec.unmarshal (sym (ok-injective e));
  valid-marshal = λ r v e. refl;
}

abbrev pub app : Scope
app = record { tenant = "acme"; database = "app" }

abbrev pub sample : Delivery Json
sample = record {
  id = "h1/00000000000000000001/e1";
  webhook_id = "h1";
  revision = 1;
  event_id = "e1";
  url = "https://example.com";
  payload = some (text_json "{}");
  status = "pending";
  stage = "delivery";
  attempts = 0;
  last_status = 0;
  last_error = "";
  next_attempt_at = 10;
  created_at = 10;
  completed_at = none;
}

abbrev pub env : HookEnv Json
env = record {
  valid = λ v. true;
  nil = text_json "";
  hooks = hook_codec;
  revisions = revision_codec;
  materializations = record { marshal = λ m. ok (text_json m.id); unmarshal = λ v. unreadable };
  deliveries = record { marshal = λ d. ok (text_json d.id); unmarshal = λ v. ok sample };
  cursors = record { marshal = λ c. ok (text_json "cursor"); unmarshal = λ v. unreadable };
  allow_private_urls = false;
  parse_url =
      λ t. some (record { scheme = "https"; host = "example.com"; hostname = "example.com" });
  equal_fold = λ a b. false;
  parse_ip = λ t. none;
  random_hex = ok "h1";
  random_secret = ok "s1";
  hmac_hex = λ secret text payload. "00";
  validate_source = λ source limits. ok tt;
  execute = λ source input limits. unreadable;
}

law : IsLawfulHooks env
law = record { hooks_law = hook_law; revisions_law = revision_law }

abbrev registration : Registration Json
registration = record {
  name = "orders";
  scope = app;
  url = "https://example.com";
  events = "created" ∷ [];
  object_types = [];
  reads = [];
  transform = record { language = "javascript"; source = "export function transform() {}" };
  limits = default_limits;
}

abbrev empty : Store Json
empty = record { records = []; fault = λ r. none }

register-ok_example :
    (id : String) × (registered_hook env 5 "h1" registration
      ≡ registered_hook env 5 id registration)
    × IsStored env id
        (registered_hook env 5 id registration)
        (revision_of env 5 id 1 "s1" registration)
        (register env 5 registration empty).1
unfolding register barq_control_plane.Control.Store.apply barq_control_plane.Control.Store.plan
    barq_control_plane.Control.Types.record_id
register-ok_example = register-ok env law 5 registration empty refl

abbrev stored_delivery : Record Json
stored_delivery = record {
  collection = delivery_collection;
  key = sample.id;
  value = text_json "sent before";
  version = 3;
}

abbrev pub queue : Store Json
queue = record {
  records =
      stored_delivery
      ∷ record {
        collection = "webhook_revisions";
        key = "h1/00000000000000000001";
        value = revision_json (record {
          webhook_id = "h1";
          number = 1;
          source = "export function transform() {}";
          limits = default_limits;
          signing_secret = "s1";
          created_at = 5;
        });
        version = 1;
      }
      ∷ [];
  fault = λ r. none;
}

create_delivery_keeps_example :
    find_record delivery_collection sample.id (create_delivery env sample queue).1.records
    ≡ some stored_delivery
unfolding find_record
create_delivery_keeps_example =
    create_delivery_keeps env sample queue delivery_collection sample.id stored_delivery refl

abbrev refusing : Reply
refusing = failed "connection refused"

sample-IsDelivery : IsDelivery sample
sample-IsDelivery = record {
  known = inl refl;
  bounded = omega arith;
  unspent = λ _. omega arith;
  unspent_retry = λ _. omega arith;
}

Steps-IsDelivery_example : IsDelivery (deliver 21 refusing sample)
Steps-IsDelivery_example =
    Steps-IsDelivery sample-IsDelivery (next created (attempted 20 21 refusing refl))

backoff_lem_example :
    (3 ≤ 11 → backoff 3 ≡ 2 ^ 3 * second)
    × (12 ≤ 3 → backoff 3 ≡ 3600 * second)
    × (backoff 3 ≤ backoff 4)
backoff_lem_example = backoff_lem 3

effective_limits-IsLimited_example :
    IsLimited (effective_limits (record default_limits { timeout = negsuc 4 }))
effective_limits-IsLimited_example =
    effective_limits-IsLimited (record default_limits { timeout = negsuc 4 })

abbrev names : List String
names = " b " ∷ "" ∷ "a" ∷ "b" ∷ []

unique_sorted-IsUniqueSorted_example : IsUniqueSorted names (unique_sorted names)
unique_sorted-IsUniqueSorted_example = unique_sorted-IsUniqueSorted names

abbrev pub hook : Webhook Json
hook = registered_hook env 5 "h1" registration

abbrev pub event : ChangeEvent Json
event = record {
  id = "e1";
  scope = app;
  cursor = 4;
  snapshot = 4;
  event_type = "created";
  object_type = "Order";
  primary_key = text_json "1";
  source = "api";
  changed = [];
  before = none;
  after = none;
  committed_at = 9;
}

abbrev hook_id : String
hook_id = "h1"

abbrev event_id : String
event_id = "e/1"

abbrev first_revision : ℕ
first_revision = 1

delivery_id-injective_example :
    (hook_id ≡ hook_id) × (first_revision ≡ first_revision) × (event_id ≡ event_id)
delivery_id-injective_example =
    delivery_id-injective hook_id hook_id first_revision first_revision event_id event_id refl
      (omega arith) (omega arith) refl
