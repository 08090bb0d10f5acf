-- ===== src/Control/Store.antt =====
-- What `control.Store` promises its clients: a table of records, changed by checked transactions.
-- The clients in this program are written over it; Control/Barq refines it.
-- Source: the interface `Store` of internal/control/store.go.
pub mod Calls
pub mod Frames
pub mod Fresh
pub mod Laws
pub mod Outcome
pub mod Spared
pub mod Steps
pub mod Tables
use barq_control_plane.Base.{
  ℕ, String, ◌==◌, is_blank, if◌then◌else◌, Bool, true, false, ◌&&◌, Option, none, some, List, [],
  ◌∷◌, Error, Result, ok, err, ◌>>=◌, ◌>>◌,
}
use barq_control_plane.Base.Lists.{length}
use barq_control_plane.Base.Order.{str_leb}
use barq_control_plane.Base.Sorting.{sort_by}
use barq_control_plane.Base.Text.{starts_with}
use barq_control_plane.Control.Types.{Record, Mutation, mutation_put, mutation_delete}
use barq_control_plane.Control.Checks.{
  Pending, validate_identity, check_all, check_count, invalid, not_found_error,
}

-- A call that a client makes, as far as it may fail on its own.
pub data Request (V : Type 0) : Type 0 where
  get_of : String → String → Request V
  list_of : String → Request V
  apply_of : List (Mutation V) → Request V

-- `fault` is what the environment answers instead: a cancelled context, an error of the database.
pub record Store (V : Type 0) : Type 0 where
  pub records : List (Record V)
  pub fault : Request V → Option Error

abbrev pub or_fault : {A : Type 0} → Option Error → Result A → Result A
or_fault none r = r
or_fault (some e) r = err e

module _ {V : Type 0} where
  abbrev pub is_at : String → String → Record V → Bool
  is_at c k r = r.collection == c && r.key == k

  unfoldable pub find_record : String → String → List (Record V) → Option (Record V)
  find_record c k [] = none
  find_record c k (r ∷ rs) = if is_at c k r then some r else find_record c k rs

  abbrev pub or_not_found : Option (Record V) → Result (Record V)
  or_not_found none = err not_found_error
  or_not_found (some r) = ok r

  unfoldable pub get : Store V → String → String → Result (Record V)
  unfolding validate_identity
  get s c k = do
    validate_identity c k
    or_fault (s.fault (get_of c k)) (or_not_found (find_record c k s.records))

  unfoldable pub listed : String → String → List (Record V) → List (Record V)
  listed c prefix [] = []
  listed c prefix (r ∷ rs) =
      let rest = listed c prefix rs in
      if r.collection == c && starts_with r.key prefix then r ∷ rest else rest

  abbrev pub key_leb : Record V → Record V → Bool
  key_leb a b = str_leb a.key b.key

  unfoldable pub list : Store V → String → String → Result (List (Record V))
  unfolding listed sort_by
  list s c prefix =
      if is_blank c
      then err (invalid "collection is required")
      else or_fault (s.fault (list_of c)) (ok (sort_by key_leb (listed c prefix s.records)))

  unfoldable pub put_record : Record V → List (Record V) → List (Record V)
  put_record r [] = r ∷ []
  put_record r (q ∷ rs) = if is_at r.collection r.key q then r ∷ rs else q ∷ put_record r rs

  unfoldable pub delete_record : String → String → List (Record V) → List (Record V)
  delete_record c k [] = []
  delete_record c k (q ∷ rs) =
      let rest = delete_record c k rs in if is_at c k q then rest else q ∷ rest

  abbrev pub new_record : {O : Type 0} → Pending V O → Record V
  new_record p = record {
    collection = p.mutation.collection;
    key = p.mutation.key;
    value = p.mutation.value;
    version = p.next;
  }

  unfoldable pub perform : {O : Type 0} → Pending V O → List (Record V) → List (Record V)
  unfolding put_record delete_record
  perform p rs =
      if p.mutation.op == mutation_delete
      then delete_record p.mutation.collection p.mutation.key rs
      else put_record (new_record p) rs

  unfoldable pub perform_all : {O : Type 0} → List (Pending V O) → List (Record V) → List (Record V)
  unfolding perform
  perform_all [] rs = rs
  perform_all (p ∷ ps) rs = perform_all ps (perform p rs)

  -- The records that a transaction returns: those that it put.
  unfoldable pub put_results : {O : Type 0} → List (Pending V O) → List (Record V)
  put_results [] = []
  put_results (p ∷ ps) =
      let rest = put_results ps in
      if p.mutation.op == mutation_put then new_record p ∷ rest else rest

  abbrev pub look_up : List (Record V) → String → String → Result (Option (Unit {0} × ℕ))
  look_up rs c k = elim (find_record c k rs) [ none ↦ ok none | some r ↦ ok (some (tt, r.version)) ]

  abbrev pub commit :
      Store V → Result (List (Pending V (Unit {0}))) → Result (List (Record V)) × Store V
  commit s (err e) = (err e, s)
  commit s (ok ps) = (ok (put_results ps), record s { records = perform_all ps s.records })

  -- The checks of a transaction on a table.
  unfoldable pub plan :
      (V → Bool) → Store V → List (Mutation V) → Result (List (Pending V (Unit {0})))
  unfolding check_all check_count find_record
  plan valid s ms = do
    check_count ms
    or_fault (s.fault (apply_of ms)) (check_all valid (look_up s.records) [] ms)

  unfoldable pub apply :
      (V → Bool) → Store V → List (Mutation V) → Result (List (Record V)) × Store V
  apply valid s ms = commit s (plan valid s ms)

  abbrev pub first : Result (List (Record V)) × Store V → Result (Record V) × Store V
  first (err e, s) = (err e, s)
  first (ok [], s) = (err (invalid "no record"), s)
  first (ok (r ∷ rs), s) = (ok r, s)

  abbrev pub put_of : String → String → V → Option ℕ → Mutation V
  put_of c k v expected = record {
    op = mutation_put;
    collection = c;
    key = k;
    value = v;
    expected = expected;
  }

  -- The value of a deletion is not read.
  abbrev pub delete_of : V → String → String → Option ℕ → Mutation V
  delete_of nil c k expected = record {
    op = mutation_delete;
    collection = c;
    key = k;
    value = nil;
    expected = expected;
  }

  unfoldable pub put :
      (V → Bool) → Store V → String → String → V → Option ℕ → Result (Record V) × Store V
  put valid s c k v expected = first (apply valid s (put_of c k v expected ∷ []))

  abbrev pub forget : Result (List (Record V)) × Store V → Result (Unit {0}) × Store V
  forget (err e, s) = (err e, s)
  forget (ok rs, s) = (ok tt, s)

  unfoldable pub delete :
      (V → Bool) → V → Store V → String → String → Option ℕ → Result (Unit {0}) × Store V
  delete valid nil s c k expected = forget (apply valid s (delete_of nil c k expected ∷ []))
