-- ===== src/Control/Barq/Trips.antt =====
-- What is written is read back.
use barq_control_plane.Base.{
  ℕ, String, ◌≡◌, refl, ◌∙◌, eq_iff, Bool, Option, none, some, Error, Result, ok, err, arith, ◌⊎◌,
  inl, inr,
}
use barq_control_plane.Base.Results.{Result-cases}
use barq_control_plane.Control.Types.{Record}
use barq_control_plane.Control.Checks.{
  validate_identity, check_mutation, check_all, check_count, next_version,
}
use barq_control_plane.Control.Store.{Store, find_record, get, plan, apply, put, put_record}
use barq_control_plane.Control.Store.Laws.{find-put_record, version_of}
use barq_control_plane.Control.Store.Calls.{put-ok}
use barq_control_plane.Control.Barq.{Database, barq_get, barq_put}
use barq_control_plane.Control.Barq.Laws.{IsDatabase}
use barq_control_plane.Control.Barq.Refinement.{
  Implements, IsOutside, Agrees, answered, refused, broken,
}
use barq_control_plane.Control.Barq.Clients.{barq_get-agrees, barq_put-Agrees}

-- A write that succeeded was at a place with names.
put_named :
    {V : Type 0} (valid : V → Bool) (s : Store V) (c k : String) (v : V) (expected : Option ℕ)
    {r : Record V}
    → (put valid s c k v expected).0 ≡ ok r
    → (u : Unit {0}) × (validate_identity c k ≡ ok u)
unfolding put apply plan check_all check_mutation check_count
put_named valid s c k v expected h = elim (Result-cases (validate_identity c k)) [
  | inl (u, e) ↦ (u, e)
  | inr (e, f) ↦ (tt, ground (arith, f))
]

-- In a table without faults, what was written is read back.
pub get-put :
    {V : Type 0} (valid : V → Bool) (s : Store V) (c k : String) (v : V) (expected : Option ℕ)
    {r : Record V}
    → s.fault ≡ (λ q. none)
    → (put valid s c k v expected).0 ≡ ok r
    → get (put valid s c k v expected).1 c k ≡ ok r
unfolding get
get-put valid s c k v expected {r} calm h =
    let p = put-ok valid s c k v expected h in
    let (u, named) = put_named valid s c k v expected h in
    let there : find_record c k (put_record r s.records) ≡ some r =
      ground (arith, find-put_record r s.records c k, p.named, eq_iff c c, eq_iff k k) in
    rw (named, p.stored) (rw (calm, there) refl)

module _ {D V : Type 0} (db : Database D V) (law : IsDatabase db) where
  agreed-ok :
      {A : Type 0} (stopped : Option Error) (s : Store V) (x : Result A × D)
      (y : Result A × Store V) {a : A}
      → Agrees db law stopped s x y
      → x.0 ≡ ok a
      → (y.0 ≡ ok a) × Implements db law x.1 y.1
  agreed-ok stopped s _ _ (answered a d t impl) h = (h, impl)
  agreed-ok stopped s _ _ (refused e d impl) h = cc
  agreed-ok stopped s _ _ (broken e d x outside impl) h = cc

  -- A record that was put with success has the collection, the key and the value that were given,
  -- and is what is read at its place afterwards, unless the context has ended or the database
  -- fails.
  pub barq_get-barq_put :
      (valid : V → Bool) (stopped later : Option Error) (d : D) (s : Store V) (c k : String) (v : V)
      (expected : Option ℕ) {r : Record V}
      → Implements db law d s
      → (barq_put db valid stopped d c k v expected).0 ≡ ok r
      → (r ≡ record {
        collection = c;
        key = k;
        value = v;
        version = next_version (version_of (find_record c k s.records));
      })
        × ((barq_get db later (barq_put db valid stopped d c k v expected).1 c k ≡ ok r)
            ⊎ ((e : Error) × (barq_get db later (barq_put db valid stopped d c k v expected).1 c k
                  ≡ err e)
                × IsOutside db law later e))
  barq_get-barq_put valid stopped later d s c k v expected impl h =
      let x = barq_put db valid stopped d c k v expected in
      let y = put valid s c k v expected in
      let (done, impl') =
        agreed-ok stopped s x y (barq_put-Agrees db law valid stopped d s c k v expected impl) h in
      (
        (put-ok valid s c k v expected done).named,
        elim (barq_get-agrees db law later x.1 y.1 c k impl') [
          | inl same ↦ inl (same ∙ get-put valid s c k v expected impl.calm done)
          | inr failed ↦ inr failed
        ],
      )
