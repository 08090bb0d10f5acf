-- ===== src/Control/Barq/Effects.antt =====
-- What a transaction's changes of the rows are on the table that the rows stand for.
use barq_control_plane.Base.{
  String, ◌≡◌, refl, ap, ap₂, ◌∙◌, ◌==◌, eq_iff, if◌then◌else◌, false, not, ◌&&◌, Option, none,
  some, List, [], ◌∷◌, map, arith, inl, inr, Bool-cases, Option-cases,
}
use barq_control_plane.Base.Lists.{All}
use barq_control_plane.Control.Types.{Record, mutation_delete, record_id}
use barq_control_plane.Control.Types.Laws.{record_id-injective}
use barq_control_plane.Control.Checks.{Pending, is_some}
use barq_control_plane.Control.Store.{
  perform, perform_all, put_results, new_record, put_record, delete_record,
}
use barq_control_plane.Control.Store.Laws.{find-put_record, find-delete_record}
use barq_control_plane.Control.Barq.{Row, erase, read_record, put_change, changes, result_records}
use barq_control_plane.Control.Barq.Laws.{changed, changed_all, Represents}
use barq_control_plane.Control.Barq.Refines.{shade}

-- Whether two places have one id.
same_id : (a b c k : String) → (record_id c k == record_id a b) ≡ (a == c && b == k)
same_id a b c k = elim (Bool-cases (record_id c k == record_id a b)) [
  | inl p ↦
      let (x, y) = record_id-injective c a k b ((eq_iff (record_id c k) (record_id a b)).0 p) in
      ground (arith, p, x, y, eq_iff a c, eq_iff b k)
  | inr p ↦ ground (arith, p, eq_iff (record_id c k) (record_id a b), eq_iff a c, eq_iff b k)
]

module _ {V : Type 0} where
  step_erase :
      (look : String → Option (Row V)) (rs : List (Record V)) (row : Row V) (a b : String)
      → row.id ≡ record_id a b
      → Represents look rs
      → Represents (changed (erase row) look) (delete_record a b rs)
  step_erase look rs row a b own rep c k =
      let at_row = ap (λ i. record_id c k == i) own ∙ same_id a b c k in
      elim (Bool-cases (a == c && b == k)) [
        | inl p ↦ rw (at_row, find-delete_record a b rs c k, p) refl
        | inr p ↦ rw (at_row, find-delete_record a b rs c k, p) (rep c k)
      ]

  -- A row that is set or created, as the record that it stands for.
  step_store :
      (look : String → Option (Row V)) (rs : List (Record V)) (row : Row V) (r : Record V)
      → row.id ≡ record_id r.collection r.key
      → read_record row ≡ r
      → Represents look rs
      → Represents (λ i. if i == row.id then some row else look i) (put_record r rs)
  step_store look rs row r own reads rep c k =
      let at_row = ap (λ i. record_id c k == i) own ∙ same_id r.collection r.key c k in
      elim (Bool-cases (r.collection == c && r.key == k)) [
        | inl p ↦ rw (at_row, find-put_record r rs c k, p) (ap some reads)
        | inr p ↦ rw (at_row, find-put_record r rs c k, p) (rep c k)
      ]

  -- The object of a mutation is the row of its place, and a deletion has one.
  pub record IsReady (p : Pending V (Row V)) : Type 0 where
    pub own :
        (row : Row V)
        → p.object ≡ some row
        → (row.id ≡ record_id p.mutation.collection p.mutation.key)
          × ((row.collection ≡ p.mutation.collection) × (row.key ≡ p.mutation.key))
    pub present : (p.mutation.op == mutation_delete && not (is_some p.object)) ≡ false

  step_put :
      (look : String → Option (Row V)) (rs : List (Record V)) (p : Pending V (Row V))
      → IsReady p
      → Represents look rs
      → Represents
          (changed (put_change p.mutation p.next p.object) look)
          (put_record (new_record (shade p)) rs)
  step_put look rs p ready rep = step p.object refl
    where
      step :
          (o : Option (Row V))
          → p.object ≡ o
          → Represents
              (changed (put_change p.mutation p.next o) look)
              (put_record (new_record (shade p)) rs)
      step none h =
          step_store look rs
            (record {
              id = record_id p.mutation.collection p.mutation.key;
              collection = p.mutation.collection;
              key = p.mutation.key;
              value = p.mutation.value;
              version = p.next;
            })
            (new_record (shade p)) refl refl rep
      step (some row) h =
          let (id, (collection, key)) = ready.own row h in
          step_store look rs (record row { value = p.mutation.value; version = p.next })
            (new_record (shade p)) id
            (ap₂
              (λ c k. record {
                collection = c;
                key = k;
                value = p.mutation.value;
                version = p.next;
              })
              collection key)
            rep

  -- The changes of a transaction, in their order, are its mutations on the table.
  pub effects :
      (look : String → Option (Row V)) (rs : List (Record V)) (ps : List (Pending V (Row V)))
      → All IsReady ps
      → Represents look rs
      → Represents (changed_all (changes ps) look) (perform_all (map shade ps) rs)
  unfolding changed_all changes perform_all perform
  effects look rs [] ready rep = rep
  effects look rs (p ∷ ps) (here, ready) rep =
      elim (Bool-cases (p.mutation.op == mutation_delete)) [
        | inr put_op ↦ rw put_op (
            effects (changed (put_change p.mutation p.next p.object) look) (perform (shade p) rs) ps
              ready (rw put_op (step_put look rs p here rep)))
        | inl delete_op ↦ elim (Option-cases p.object) [
          | inl missing ↦ cc (rw (delete_op, missing) at here.present)
          | inr (row, h) ↦
              rw (delete_op, h)
                (effects (changed (erase row) look) (perform (shade p) rs) ps ready (
                  rw delete_op (
                    step_erase look rs row p.mutation.collection p.mutation.key (here.own row h).0
                      rep)))
        ]
      ]

  pub same_results :
      (ps : List (Pending V (Row V))) → put_results (map shade ps) ≡ result_records ps
  unfolding put_results result_records
  same_results [] = refl
  same_results (p ∷ ps) = rw (same_results ps) refl
