-- ===== src/Control/Barq/Refinement.antt =====
-- BarqStore implements the table that the interface Store promises.
use barq_control_plane.Base.{
  ℕ, String, ◌≡◌, refl, sym, ap, ◌∙◌, Bool, true, Option, none, some, List, [], ◌∷◌, map, Error,
  internal, Result, ok, err, ◌⊎◌, inl, inr, is_code,
}
use barq_control_plane.Base.Lists.{All}
use barq_control_plane.Base.Results.{Result-cases, ok-injective}
use barq_control_plane.Control.Types.{Record, Mutation, record_id}
use barq_control_plane.Control.Checks.{Pending, check_all, check_count, found_object}
use barq_control_plane.Control.Store.{Store, find_record, plan, apply, commit, or_fault, look_up}
use barq_control_plane.Control.Store.Laws.{found_at}
use barq_control_plane.Control.Barq.{
  Row, Database, map_barq_error, read_record, look_row, with_version, barq_plan, barq_apply,
  run_plan, written, changes, result_records,
}
use barq_control_plane.Control.Barq.Laws.{record_at, Represents, IsDatabase}
use barq_control_plane.Control.Barq.Refines.{
  shade, shadow, IsLooked, HasFailed, check_all-agrees, check_all-fails,
}
use barq_control_plane.Control.Barq.Effects.{IsReady, effects, same_results}

module _ {D V : Type 0} (db : Database D V) (law : IsDatabase db) where
  -- The rows of the database stand for the records of the store, which has no faults of its own.
  pub record Implements (d : D) (s : Store V) : Type 0 where
    pub stands : Represents (law.row_at d) s.records
    pub calm : s.fault ≡ λ r. none

  -- An error that the table cannot explain: a context that has ended, or the database's own.
  abbrev pub IsOutside : Option Error → Error → Type 0
  IsOutside stopped e = (stopped ≡ some e) ⊎ (is_code e internal ≡ true)

  -- What is found under the id of a place is the table's record there.
  pub find_stands :
      (d : D) (rs : List (Record V))
      → Represents (law.row_at d) rs
      → (c k : String) (o : Option (Row V)) → db.find d (record_id c k) ≡ ok o
      → find_record c k rs ≡ record_at o
  find_stands d rs rep c k o h =
      sym (rep c k) ∙ ap record_at (sym (law.find-ok d (record_id c k) o h))

  look_row-ok :
      (d : D) (c k : String) (o : Option (Row V × ℕ))
      → look_row db d c k ≡ ok o
      → (found : Option (Row V)) × (db.find d (record_id c k) ≡ ok found)
        × (with_version db found ≡ o)
  look_row-ok d c k o h = elim (Result-cases (db.find d (record_id c k))) [
    | inr (e, f) ↦ cc (rw f at h)
    | inl (found, e) ↦ (found, e, ok-injective (rw e at h))
  ]

  shadow_version :
      (rs : List (Record V)) (c k : String) (found : Option (Row V))
      → find_record c k rs ≡ record_at found
      → look_up rs c k ≡ ok (shadow (with_version db found))
  shadow_version rs c k none h = rw (h, look_up) refl
  shadow_version rs c k (some row) h = rw (h, look_up) refl

  look_row-agrees :
      (d : D) (rs : List (Record V))
      → Represents (law.row_at d) rs
      → (c k : String) (o : Option (Row V × ℕ)) → look_row db d c k ≡ ok o
      → look_up rs c k ≡ ok (shadow o)
  look_row-agrees d rs rep c k o h =
      let (found, e, same) = look_row-ok d c k o h in
      rw (← same) (shadow_version rs c k found (find_stands d rs rep c k found e))

  object_version : (found : Option (Row V)) → found_object (with_version db found) ≡ found
  object_version none = refl
  object_version (some row) = refl

  own_place :
      (rs : List (Record V)) (c k : String) (row : Row V)
      → find_record c k rs ≡ some (read_record row)
      → (row.collection ≡ c) × (row.key ≡ k)
  own_place rs c k row h = found_at c k rs h

  IsReady-of :
      (d : D) (rs : List (Record V))
      → Represents (law.row_at d) rs
      → (p : Pending V (Row V)) → IsLooked (look_row db d) p
      → IsReady p
  IsReady-of d rs rep p (o, read, object, present) =
      let c = p.mutation.collection in
      let k = p.mutation.key in
      let (found, e, same) = look_row-ok d c k o read in
      let is_found : p.object ≡ found =
        object ∙ sym (ap found_object same) ∙ object_version found in
      record {
        own = λ row h.
            let there : found ≡ some row = sym is_found ∙ h in
            let at_id = sym (law.find-ok d (record_id c k) found e) ∙ there in
            (
              law.own_id d (record_id c k) row at_id,
              own_place rs c k row (find_stands d rs rep c k found e ∙ ap record_at there),
            );
        present = present;
      }

  All-IsReady :
      (d : D) (rs : List (Record V))
      → Represents (law.row_at d) rs
      → (ps : List (Pending V (Row V))) → All (IsLooked (look_row db d)) ps
      → All IsReady ps
  All-IsReady d rs rep [] looked = tt
  All-IsReady d rs rep (p ∷ ps) (one, more) =
      (IsReady-of d rs rep p one, All-IsReady d rs rep ps more)

  -- What a call of the database does, and the table's call: the same answer and the same table
  -- afterwards, or an error, after which the table is as it was, that the table gives as well or
  -- that comes from outside.
  pub data Agrees {A : Type 0} (stopped : Option Error) (s : Store V)
      : Result A × D → Result A × Store V → Type 0 where
    answered : (a : A) (d : D) (t : Store V) → Implements d t → Agrees stopped s (ok a, d) (ok a, t)
    refused : (e : Error) (d : D) → Implements d s → Agrees stopped s (err e, d) (err e, s)
    broken :
        (e : Error) (d : D) (x : Result A × Store V)
        → IsOutside stopped e
        → Implements d s
        → Agrees stopped s (err e, d) x

  data PlanAgrees (stopped : Option Error)
      : Result (List (Pending V (Row V))) → Result (List (Pending V (Unit {0}))) → Type 0 where
    planned :
        (ps : List (Pending V (Row V)))
        → All IsReady ps
        → PlanAgrees stopped (ok ps) (ok (map shade ps))
    rejected : (e : Error) → PlanAgrees stopped (err e) (err e)
    unplanned :
        (e : Error) (r : Result (List (Pending V (Unit {0}))))
        → IsOutside stopped e
        → PlanAgrees stopped (err e) r

  look_failed :
      (stopped : Option Error) (d : D) {e : Error}
      → HasFailed (look_row db d) e
      → IsOutside stopped e
  look_failed stopped d {e} failed =
      elim (Result-cases (db.find d (record_id failed.collection failed.key))) [
        | inl (found, f) ↦ cc (rw f at failed.failed)
        | inr (e', f) ↦
            let same : map_barq_error e' ≡ e = cc (rw f at failed.failed) in inr (rw (← same) refl)
      ]

  checks_agree :
      (valid : V → Bool) (stopped : Option Error) (d : D) (rs : List (Record V))
      (ms : List (Mutation V))
      → Represents (law.row_at d) rs
      → PlanAgrees stopped
          (check_all valid (look_row db d) [] ms)
          (check_all valid (look_up rs) [] ms)
  checks_agree valid stopped d rs ms rep =
      let agree = look_row-agrees d rs rep in
      elim (Result-cases (check_all valid (look_row db d) [] ms)) [
        | inl (ps, e) ↦
            let (same, looked) =
              check_all-agrees valid (look_row db d) (look_up rs) agree [] ms e in
            rw (e, same) (planned ps (All-IsReady d rs rep ps looked))
        | inr (e, f) ↦ elim (check_all-fails valid (look_row db d) (look_up rs) agree [] ms f) [
          | inl same ↦ rw (f, same) (rejected e)
          | inr failed ↦ rw f (unplanned e _ (look_failed stopped d failed))
        ]
      ]

  plan_agrees :
      (valid : V → Bool) (stopped : Option Error) (d : D) (s : Store V) (ms : List (Mutation V))
      → Implements d s
      → PlanAgrees stopped (barq_plan db valid stopped d ms) (plan valid s ms)
  unfolding barq_plan plan
  plan_agrees valid stopped d s ms impl = elim (Result-cases (check_count ms)) [
    | inr (e, f) ↦ rw f (rejected e)
    | inl (u, e) ↦ rw (e, impl.calm) (go stopped)
  ]
    where
      go :
          (stopped : Option Error)
          → PlanAgrees stopped
              (or_fault stopped (check_all valid (look_row db d) [] ms))
              (check_all valid (look_up s.records) [] ms)
      go none = checks_agree valid none d s.records ms impl.stands
      go (some e) = unplanned e _ (inl refl)

  write-Agrees :
      (stopped : Option Error) (d : D) (s : Store V) (ps : List (Pending V (Row V)))
      → Implements d s
      → All IsReady ps
      → (x : Result (Unit {0}) × D) → db.write d (changes ps) ≡ x
      → Agrees stopped s (written db ps x) (commit s (ok (map shade ps)))
  write-Agrees stopped d s ps impl ready (ok u, d') e = rw (same_results ps) (
      answered (result_records ps) d' _ (record {
        stands = λ c k.
            let i = record_id c k in
            let moved : law.row_at d' i ≡ law.row_at (db.write d (changes ps)).1 i =
              ap (λ (x : Result (Unit {0}) × D). law.row_at x.1 i) (sym e) in
            ap record_at (moved ∙ law.write-ok d (changes ps) u (ap (λ x. x.0) e) i)
            ∙ effects (law.row_at d) s.records ps ready impl.stands c k;
        calm = impl.calm;
      }))
  write-Agrees stopped d s ps impl ready (err e, d') h =
      broken (map_barq_error e) d' _ (inr refl) (record {
        stands = λ c k.
            let i = record_id c k in
            let moved : law.row_at d' i ≡ law.row_at (db.write d (changes ps)).1 i =
              ap (λ (x : Result (Unit {0}) × D). law.row_at x.1 i) (sym h) in
            ap record_at (moved ∙ law.write-err d (changes ps) e (ap (λ x. x.0) h) i)
            ∙ impl.stands c k;
        calm = impl.calm;
      })

  run-Agrees :
      (stopped : Option Error) (d : D) (s : Store V)
      → Implements d s
      → (r : Result (List (Pending V (Row V)))) (r' : Result (List (Pending V (Unit {0}))))
      → PlanAgrees stopped r r'
      → Agrees stopped s (run_plan db d r) (commit s r')
  run-Agrees stopped d s impl _ _ (planned ps ready) =
      write-Agrees stopped d s ps impl ready (db.write d (changes ps)) refl
  run-Agrees stopped d s impl _ _ (rejected e) = refused e d impl
  run-Agrees stopped d s impl _ _ (unplanned e r outside) = broken e d (commit s r) outside impl

  -- If the database keeps its rows as documented and they stand for the records of a store without
  -- faults, then a transaction on the database answers what the table answers, and its rows stand
  -- for the table's new records; or it fails, the rows stand for the records as before, and the
  -- error is the table's, or that of an ended context, or internal.
  pub barq_apply-Agrees :
      (valid : V → Bool) (stopped : Option Error) (d : D) (s : Store V) (ms : List (Mutation V))
      → Implements d s
      → Agrees stopped s (barq_apply db valid stopped d ms) (apply valid s ms)
  unfolding barq_apply apply
  barq_apply-Agrees valid stopped d s ms impl =
      run-Agrees stopped d s impl (barq_plan db valid stopped d ms) (plan valid s ms)
        (plan_agrees valid stopped d s ms impl)
