-- ===== src/Webhooks/Queue/Laws.antt =====
-- What a round of deliveries, `DeliverDue` of internal/webhooks/dispatcher.go, is to do.
use barq_control_plane.Base.{
  ℕ, suc, ◌+◌, ◌≤◌, String, ◌==◌, ◌&&◌, ◌≡◌, refl, true, false, inr, Option, Error, List, [], ◌∷◌,
  ok, arith,
}
use barq_control_plane.Base.Lists.{All, In, contains, length}
use barq_control_plane.Control.Types.{Record, decode}
use barq_control_plane.Control.Store.{Store, find_record}
use barq_control_plane.Auth.Types.{Time}
use barq_control_plane.Webhooks.Types.{Delivery, Post, Reply, HookEnv, delivery_collection}
use barq_control_plane.Webhooks.Deliver.{is_due}
use barq_control_plane.Webhooks.Queue.{Progress}

pub All-map {ℓ κ} :
    {A : Type ℓ} {P Q : A → Type κ} (xs : List A) → ((a : A) → P a → Q a) → All P xs → All Q xs
All-map [] f h = tt
All-map (x ∷ xs) f (p, h) = (f x p, All-map xs f h)

module _ {V : Type 0} where
  -- Two clients answer alike for these deliveries.
  abbrev pub AgreeOn : List String → (String → Post V → Reply) → (String → Post V → Reply) → Type 0
  AgreeOn keys send other = All (λ k. (post : Post V) → send k post ≡ other k post) keys

  module _ (env : HookEnv V) (clock : String → Time) where
    -- The key is that of a delivery among the records that is due at the time read for it.
    pub record IsSendable (rs : List (Record V)) (key : String) : Type 0 where
      pub place : Record V
      pub delivery : Delivery V
      pub listed : In place rs
      pub under_key : place.key ≡ key
      pub reads : decode env.deliveries place ≡ ok delivery
      pub due : is_due (clock key) delivery ≡ true

    pub still_IsSendable :
        (q : Record V) (rs : List (Record V)) (key : String)
        → IsSendable rs key
        → IsSendable (q ∷ rs) key
    still_IsSendable q rs key i = record {
      place = i.place;
      delivery = i.delivery;
      listed = inr i.listed;
      under_key = i.under_key;
      reads = i.reads;
      due = i.due;
    }

    -- What a round over the records `rs` does on the store `s`, if `run` gives its end by the
    -- client, which is `send`, and n deliveries were counted before. It sends the deliveries under
    -- the keys `sent`: they are due, and with them no more than the limit are sent. Their number
    -- is that of the deliveries counted, or one more if the last could not be stored. It does not
    -- matter what a client answers for others, and records elsewhere stay.
    pub record IsRound (n limit : ℕ) (rs : List (Record V)) (s : Store V)
        (send : String → Post V → Reply) (run : (String → Post V → Reply) → Progress × Store V)
        : Type 0 where
      pub sent : List String
      pub bounded : n + length sent ≤ limit
      pub all_due : All (IsSendable rs) sent
      pub counted : (run send).0.count ≤ n + length sent
      pub stopped_at : n + length sent ≤ suc (run send).0.count
      pub unsent :
          (other : String → Post V → Reply) → AgreeOn sent send other → run other ≡ run send
      pub kept :
          (c k : String)
          → (c == delivery_collection && contains sent k) ≡ false
          → find_record c k (run send).1.records ≡ find_record c k s.records

    module _ (limit : ℕ) (send : String → Post V → Reply) where
      -- A round that ends before it sends.
      pub ended :
          (n : ℕ) (rs : List (Record V)) (s : Store V) (failure : Option Error)
          → n ≤ limit
          → IsRound n limit rs s send (λ f. (record { count = n; failure = failure }, s))
      ended n rs s failure h = record {
        sent = [];
        bounded = omega (arith, h);
        all_due = tt;
        counted = omega arith;
        stopped_at = omega arith;
        unsent = λ other agree. refl;
        kept = λ c k apart. refl;
      }

      pub passed_over :
          (n : ℕ) (r : Record V) (rs : List (Record V)) (s : Store V)
          (run : (String → Post V → Reply) → Progress × Store V)
          → IsRound n limit rs s send run
          → IsRound n limit (r ∷ rs) s send run
      passed_over n r rs s run i = record {
        sent = i.sent;
        bounded = i.bounded;
        all_due = All-map i.sent (still_IsSendable r rs) i.all_due;
        counted = i.counted;
        stopped_at = i.stopped_at;
        unsent = i.unsent;
        kept = i.kept;
      }
