-- ===== src/Control/Barq/Clients.antt =====
-- The other calls of BarqStore against the table, and sequences of calls.
use barq_control_plane.Base.{
  ℕ, String, ◌≡◌, ◌≢◌, refl, Bool, Option, none, some, List, [], ◌∷◌, Error, Result, ok, err, ◌⊎◌,
  inl, inr,
}
use barq_control_plane.Base.Results.{Result-cases}
use barq_control_plane.Control.Types.{Record, Mutation, record_id}
use barq_control_plane.Control.Checks.{validate_identity}
use barq_control_plane.Control.Store.{
  Store, find_record, get, apply, put, delete, or_fault, put_results, or_not_found, put_of,
  delete_of, first, forget,
}
use barq_control_plane.Control.Store.Laws.{apply-ok}
use barq_control_plane.Control.Barq.{
  Row, Database, map_barq_error, get_locked, barq_get, barq_apply, or_missing, barq_put,
  barq_delete, head_record, drop_records,
}
use barq_control_plane.Control.Barq.Laws.{record_at, IsDatabase}
use barq_control_plane.Control.Barq.Refinement.{
  Implements, IsOutside, Agrees, answered, refused, broken, find_stands, barq_apply-Agrees,
}

module _ {D V : Type 0} (db : Database D V) (law : IsDatabase db) where
  found_stands :
      (o : Option (Row V)) (r : Option (Record V))
      → r ≡ record_at o
      → or_missing db o ≡ or_not_found r
  found_stands none r h = rw h refl
  found_stands (some row) r h = rw h refl

  -- A record that is read is the table's, and so is its absence, unless the context has ended or
  -- the database fails.
  pub barq_get-agrees :
      (stopped : Option Error) (d : D) (s : Store V) (c k : String)
      → Implements db law d s
      → (barq_get db stopped d c k ≡ get s c k)
        ⊎ ((e : Error) × (barq_get db stopped d c k ≡ err e) × IsOutside db law stopped e)
  unfolding barq_get get get_locked
  barq_get-agrees stopped d s c k impl = elim (Result-cases (validate_identity c k)) [
    | inr (e, f) ↦ inl (rw f refl)
    | inl (u, e) ↦ rw (e, impl.calm) (go stopped)
  ]
    where
      go :
          (stopped : Option Error)
          → (or_fault stopped (get_locked db d c k) ≡ or_not_found (find_record c k s.records))
            ⊎ ((e : Error) × (or_fault stopped (get_locked db d c k) ≡ err e)
                × IsOutside db law stopped e)
      go (some e) = inr (e, refl, inl refl)
      go none = elim (Result-cases (db.find d (record_id c k))) [
        | inr (e, f) ↦ inr (map_barq_error e, rw f refl, inr refl)
        | inl (o, e) ↦
            inl (rw e (found_stands o _ (find_stands db law d s.records impl.stands c k o e)))
      ]

  first-Agrees :
      (stopped : Option Error) (s : Store V) (x : Result (List (Record V)) × D)
      (y : Result (List (Record V)) × Store V)
      → y.0 ≢ ok []
      → Agrees db law stopped s x y
      → Agrees db law stopped s (head_record db x) (first y)
  first-Agrees stopped s _ _ full (answered [] d t impl) = absurd (full refl)
  first-Agrees stopped s _ _ full (answered (r ∷ rs) d t impl) = answered r d t impl
  first-Agrees stopped s _ _ full (refused e d impl) = refused e d impl
  first-Agrees stopped s _ _ full (broken e d x outside impl) = broken e d (first x) outside impl

  -- A single write agrees with the table as a transaction does.
  pub barq_put-Agrees :
      (valid : V → Bool) (stopped : Option Error) (d : D) (s : Store V) (c k : String) (v : V)
      (expected : Option ℕ)
      → Implements db law d s
      → Agrees db law stopped s
          (barq_put db valid stopped d c k v expected)
          (put valid s c k v expected)
  unfolding barq_put put put_results
  barq_put-Agrees valid stopped d s c k v expected impl =
      let ms = put_of c k v expected ∷ [] in
      first-Agrees stopped s _ _ (λ e. cc ((apply-ok valid s ms e).returned))
        (barq_apply-Agrees db law valid stopped d s ms impl)

  forget-Agrees :
      (stopped : Option Error) (s : Store V) (x : Result (List (Record V)) × D)
      (y : Result (List (Record V)) × Store V)
      → Agrees db law stopped s x y
      → Agrees db law stopped s (drop_records db x) (forget y)
  forget-Agrees stopped s _ _ (answered rs d t impl) = answered tt d t impl
  forget-Agrees stopped s _ _ (refused e d impl) = refused e d impl
  forget-Agrees stopped s _ _ (broken e d x outside impl) = broken e d (forget x) outside impl

  -- So does a deletion.
  pub barq_delete-Agrees :
      (valid : V → Bool) (nil : V) (stopped : Option Error) (d : D) (s : Store V) (c k : String)
      (expected : Option ℕ)
      → Implements db law d s
      → Agrees db law stopped s
          (barq_delete db valid nil stopped d c k expected)
          (delete valid nil s c k expected)
  unfolding barq_delete delete
  barq_delete-Agrees valid nil stopped d s c k expected impl =
      let ms = delete_of nil c k expected ∷ [] in
      forget-Agrees stopped s _ _ (barq_apply-Agrees db law valid stopped d s ms impl)

  module _ (valid : V → Bool) where
    -- Transactions, each with what its context gives, whatever they answer.
    unfoldable pub apply_each : List (Option Error × List (Mutation V)) → D → D
    unfolding barq_apply
    apply_each [] d = d
    apply_each ((stopped, ms) ∷ later) d = apply_each later (barq_apply db valid stopped d ms).1

    -- The tables that these transactions lead to, one after the other. A transaction answers
    -- what it answers on the table, which changes as it says. Or it fails for a reason outside
    -- the table, which stays.
    pub data Follows
        : List (Option Error × List (Mutation V)) → D → Store V → Store V → Type 0 where
      ended : (d : D) (s : Store V) → Follows [] d s s
      took :
          (stopped : Option Error) (ms : List (Mutation V))
          (later : List (Option Error × List (Mutation V))) (d : D) (s t : Store V)
          → (barq_apply db valid stopped d ms).0 ≡ (apply valid s ms).0
          → Follows later (barq_apply db valid stopped d ms).1 (apply valid s ms).1 t
          → Follows ((stopped, ms) ∷ later) d s t
      missed :
          (stopped : Option Error) (ms : List (Mutation V))
          (later : List (Option Error × List (Mutation V))) (d : D) (s t : Store V) (e : Error)
          → (barq_apply db valid stopped d ms).0 ≡ err e
          → IsOutside db law stopped e
          → Follows later (barq_apply db valid stopped d ms).1 s t
          → Follows ((stopped, ms) ∷ later) d s t

    -- One transaction took place on the table, or failed for a reason outside it.
    Took :
        Option Error
        → Store V
        → Result (List (Record V)) × D
        → Result (List (Record V)) × Store V
        → Type 0
    Took stopped s x y =
        ((x.0 ≡ y.0) × Implements db law x.1 y.1)
        ⊎ ((e : Error) × (x.0 ≡ err e) × IsOutside db law stopped e × Implements db law x.1 s)
