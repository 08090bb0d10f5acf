-- ===== src/Control/Barq.antt =====
-- `BarqStore` of internal/control/barq.go: the control store over an embedded database, which is a
-- parameter. A row is an object of the class ControlRecord.
pub mod Laws
pub mod Clients
pub mod Effects
pub mod Refinement
pub mod Trips
pub mod Refines
use barq_control_plane.Base.{
  ℕ, String, ◌==◌, is_blank, if◌then◌else◌, Bool, true, false, Option, none, some, List, [], ◌∷◌,
  Error, coded, internal, Result, ok, err, ◌>>=◌, ◌>>◌,
}
use barq_control_plane.Base.Sorting.{sort_by}
use barq_control_plane.Base.Text.{starts_with}
use barq_control_plane.DataPlane.{error_text}
use barq_control_plane.Control.Types.{Record, Mutation, mutation_put, mutation_delete, record_id}
use barq_control_plane.Control.Checks.{
  Pending, validate_identity, check_all, check_count, invalid, not_found_error,
}
use barq_control_plane.Control.Store.{or_fault, key_leb, put_of, delete_of}

-- The properties of `controlSchema`; a version is kept as the bits of an int64.
pub record Row (V : Type 0) : Type 0 where
  pub id : String
  pub collection : String
  pub key : String
  pub value : V
  pub version : ℕ

-- What the body of a transaction calls: `tx.Delete`, `tx.Set` of value and version, `tx.Create`.
pub data Change (V : Type 0) : Type 0 where
  erase : Row V → Change V
  set_row : Row V → V → ℕ → Change V
  create : Row V → Change V

-- The calls of a database with the state `D`: `Find` and `All` with the reading of the objects that
-- they give, and `Write` of a transaction with these changes.
pub record Database (D V : Type 0) : Type 0 where
  pub find : D → String → Result (Option (Row V))
  pub all : D → Result (List (Row V))
  pub write : D → List (Change V) → Result (Unit {0}) × D

-- mapBarqError, of an error that is not nil
abbrev pub map_barq_error : Error → Error
map_barq_error e = coded internal (error_text e)

abbrev pub mapped : {A : Type 0} → Result A → Result A
mapped (ok a) = ok a
mapped (err e) = err (map_barq_error e)

module _ {V : Type 0} where
  -- readRecord
  abbrev pub read_record : Row V → Record V
  read_record row = record {
    collection = row.collection;
    key = row.key;
    value = row.value;
    version = row.version;
  }

  -- What the transaction does for a mutation that passed its checks.
  abbrev pub put_change : Mutation V → ℕ → Option (Row V) → Change V
  put_change m next (some row) = set_row row m.value next
  put_change m next none = create (record {
    id = record_id m.collection m.key;
    collection = m.collection;
    key = m.key;
    value = m.value;
    version = next;
  })

  unfoldable pub changes : List (Pending V (Row V)) → List (Change V)
  unfolding record_id
  changes [] = []
  changes (p ∷ ps) =
      let rest = changes ps in
      if p.mutation.op == mutation_delete
      then elim p.object [ none ↦ rest | some row ↦ erase row ∷ rest ]
      else put_change p.mutation p.next p.object ∷ rest

  abbrev pub result_record : Pending V (Row V) → Record V
  result_record p = record {
    collection = p.mutation.collection;
    key = p.mutation.key;
    value = p.mutation.value;
    version = p.next;
  }

  -- The records that are returned: those of the puts.
  unfoldable pub result_records : List (Pending V (Row V)) → List (Record V)
  result_records [] = []
  result_records (p ∷ ps) =
      let rest = result_records ps in
      if p.mutation.op == mutation_put then result_record p ∷ rest else rest

  unfoldable pub matching : String → String → List (Row V) → List (Record V)
  matching c prefix [] = []
  matching c prefix (row ∷ rows) =
      let rest = matching c prefix rows in
      if row.collection == c
      then (if starts_with row.key prefix then read_record row ∷ rest else rest)
      else rest

module _ {D V : Type 0} (db : Database D V) where
  abbrev pub or_missing : Option (Row V) → Result (Record V)
  or_missing none = err not_found_error
  or_missing (some row) = ok (read_record row)

  unfoldable pub get_locked : D → String → String → Result (Record V)
  unfolding record_id
  get_locked d c k = mapped (db.find d (record_id c k)) >>= or_missing

  -- Get; `stopped` is what `ctx.Err()` gives.
  unfoldable pub barq_get : Option Error → D → String → String → Result (Record V)
  unfolding validate_identity get_locked
  barq_get stopped d c k = do validate_identity c k; or_fault stopped (get_locked d c k)

  -- List
  unfoldable pub barq_list : Option Error → D → String → String → Result (List (Record V))
  unfolding matching sort_by
  barq_list stopped d c prefix =
      if is_blank c
      then err (invalid "collection is required")
      else or_fault stopped
          (mapped (db.all d) >>= λ rows. ok (sort_by key_leb (matching c prefix rows)))

  abbrev pub with_version : Option (Row V) → Option (Row V × ℕ)
  with_version none = none
  with_version (some row) = some (row, row.version)

  abbrev pub look_row : D → String → String → Result (Option (Row V × ℕ))
  look_row d c k = mapped (db.find d (record_id c k)) >>= λ found. ok (with_version found)

  -- The checks of Apply.
  unfoldable pub barq_plan :
      (V → Bool) → Option Error → D → List (Mutation V) → Result (List (Pending V (Row V)))
  unfolding check_all check_count record_id
  barq_plan valid stopped d ms = do
    check_count ms
    or_fault stopped (check_all valid (look_row d) [] ms)

  abbrev pub written :
      List (Pending V (Row V)) → Result (Unit {0}) × D → Result (List (Record V)) × D
  written ps (ok u, d) = (ok (result_records ps), d)
  written ps (err e, d) = (err (map_barq_error e), d)

  abbrev pub run_plan : D → Result (List (Pending V (Row V))) → Result (List (Record V)) × D
  run_plan d (err e) = (err e, d)
  run_plan d (ok ps) = written ps (db.write d (changes ps))

  -- Apply
  unfoldable pub barq_apply :
      (V → Bool) → Option Error → D → List (Mutation V) → Result (List (Record V)) × D
  unfolding barq_plan changes result_records
  barq_apply valid stopped d ms = run_plan d (barq_plan valid stopped d ms)

  -- The record that a single put returns; there is one.
  abbrev pub head_record : Result (List (Record V)) × D → Result (Record V) × D
  head_record (err e, d) = (err e, d)
  head_record (ok [], d) = (err (invalid "no record"), d)
  head_record (ok (r ∷ rs), d) = (ok r, d)

  -- Put
  unfoldable pub barq_put :
      (V → Bool) → Option Error → D → String → String → V → Option ℕ → Result (Record V) × D
  unfolding barq_apply
  barq_put valid stopped d c k v expected =
      head_record (barq_apply valid stopped d (put_of c k v expected ∷ []))

  abbrev pub drop_records : Result (List (Record V)) × D → Result (Unit {0}) × D
  drop_records (err e, d) = (err e, d)
  drop_records (ok rs, d) = (ok tt, d)

  -- Delete; `nil` is the value that the mutation does not have.
  unfoldable pub barq_delete :
      (V → Bool) → V → Option Error → D → String → String → Option ℕ → Result (Unit {0}) × D
  unfolding barq_apply
  barq_delete valid nil stopped d c k expected =
      drop_records (barq_apply valid stopped d (delete_of nil c k expected ∷ []))
