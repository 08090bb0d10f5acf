-- ===== src/Control/Store/Frames.antt =====
-- What the operations of a store leave as it is.
use barq_control_plane.Base.{
  ℕ, String, ◌≡◌, refl, ◌∙◌, ◌==◌, eq_iff, eq_refl, if◌then◌else◌, Bool, true, false, ◌&&◌, Option,
  none, some, List, [], ◌∷◌, arith, map, inl, inr, ◌⊎◌, Bool-cases,
}
use barq_control_plane.Base.Lists.{All}
use barq_control_plane.Base.Results.{Result-cases}
use barq_control_plane.Control.Types.{Record, Mutation, mutation_delete}
use barq_control_plane.Control.Checks.{Pending, version_matches}
use barq_control_plane.Control.Store.{
  Store, find_record, new_record, perform, perform_all, apply, put, delete,
}
use barq_control_plane.Control.Store.Laws.{
  find-put_record, find-delete_record, pending_of, version_of, apply-ok, apply-err, Passes,
}
use barq_control_plane.Control.Store.Calls.{put-ok, put-err, delete-ok, delete-err}

module _ {V : Type 0} where
  -- Does the mutation act at this place?
  abbrev pub targets : String → String → Mutation V → Bool
  targets c k m = m.collection == c && m.key == k

  pub find-perform :
      {O : Type 0} (p : Pending V O) (rs : List (Record V)) (c k : String)
      → find_record c k (perform p rs) ≡ (
          if targets c k p.mutation
          then (if p.mutation.op == mutation_delete then none else some (new_record p))
          else find_record c k rs)
  unfolding perform
  find-perform p rs c k = ground (
    arith,
    find-put_record (new_record p) rs c k,
    find-delete_record p.mutation.collection p.mutation.key rs c k,
  )

  pub perform_all_frame :
      (c k : String) (start : List (Record V)) (ms : List (Mutation V)) (rs : List (Record V))
      → All (λ m. targets c k m ≡ false) ms
      → find_record c k (perform_all (map (pending_of start) ms) rs) ≡ find_record c k rs
  unfolding perform_all
  perform_all_frame c k start [] rs h = refl
  perform_all_frame c k start (m ∷ ms) rs (p, h) =
      perform_all_frame c k start ms (perform (pending_of start m) rs) h
      ∙ rw (find-perform (pending_of start m) rs c k, p) refl

  pub none_matched :
      (o : Option (Record V)) → version_matches (some 0) (version_of o) ≡ true → o ≡ none
  unfolding version_matches
  none_matched none h = refl
  none_matched (some r) h = cc

  module _ (valid : V → Bool) where
    -- A transaction leaves a place alone at which none of its mutations acts.
    pub apply_frame :
        (s : Store V) (ms : List (Mutation V)) (c k : String)
        → All (λ m. targets c k m ≡ false) ms
        → find_record c k (apply valid s ms).1.records ≡ find_record c k s.records
    apply_frame s ms c k h = elim (Result-cases (apply valid s ms).0) [
      | inl (rs, e) ↦
          rw (apply-ok valid s ms e).stored (perform_all_frame c k s.records ms s.records h)
      | inr (e, f) ↦ rw (apply-err valid s ms f) refl
    ]

    pub put_frame :
        (s : Store V) (a b : String) (v : V) (expected : Option ℕ) (c k : String)
        → (a == c && b == k) ≡ false
        → find_record c k (put valid s a b v expected).1.records ≡ find_record c k s.records
    put_frame s a b v expected c k h = elim (Result-cases (put valid s a b v expected).0) [
      | inl (r, e) ↦
          let p = put-ok valid s a b v expected e in
          rw p.stored (ground (arith, find-put_record r s.records c k, p.named, h))
      | inr (e, f) ↦ rw (put-err valid s a b v expected f) refl
    ]

    pub delete_frame :
        (nil : V) (s : Store V) (a b : String) (expected : Option ℕ) (c k : String)
        → (a == c && b == k) ≡ false
        → find_record c k (delete valid nil s a b expected).1.records ≡ find_record c k s.records
    delete_frame nil s a b expected c k h =
        elim (Result-cases (delete valid nil s a b expected).0) [
          | inl (u, e) ↦
              rw (delete-ok valid nil s a b expected e).0
                (ground (arith, find-delete_record a b s.records c k, h))
          | inr (e, f) ↦ rw (delete-err valid nil s a b expected f) refl
        ]

    -- A write that expects no record keeps every record.
    pub put_new_keeps :
        (s : Store V) (a b : String) (v : V) (c k : String) (r : Record V)
        → find_record c k s.records ≡ some r
        → find_record c k (put valid s a b v (some 0)).1.records ≡ some r
    put_new_keeps s a b v c k r found = elim (Result-cases (put valid s a b v (some 0)).0) [
      | inl (q, e) ↦
          let p = put-ok valid s a b v (some 0) e in
          let fresh = none_matched _ p.matched in
          rw p.stored (
            ground (
              arith,
              find-put_record q s.records c k,
              p.named,
              fresh,
              found,
              eq_iff q.collection c,
              eq_iff q.key k,
            ))
      | inr (e, f) ↦ rw (put-err valid s a b v (some 0) f) found
    ]

    -- Elsewhere, or a write that expects no record.
    abbrev pub Spares : String → String → Mutation V → Type 0
    Spares c k m = (targets c k m ≡ false) ⊎ (m.expected ≡ some 0)

    spared :
        (rs : List (Record V)) (c k : String) (r : Record V) (m : Mutation V)
        → find_record c k rs ≡ some r
        → Passes valid rs m
        → Spares c k m
        → targets c k m ≡ false
    spared rs c k r m found passed (inl apart) = apart
    spared rs c k r m found passed (inr fresh) = elim (Bool-cases (targets c k m)) [
      | inr apart ↦ apart
      | inl here ↦
          let nothing =
            none_matched (find_record m.collection m.key rs) (rw fresh at passed.matched) in
          let place : find_record m.collection m.key rs ≡ some r =
            ground (arith, eq_iff m.collection c, eq_iff m.key k, found) in
          cc (nothing, place)
    ]

    All-Spares_apart :
        (rs : List (Record V)) (c k : String) (r : Record V) (ms : List (Mutation V))
        → find_record c k rs ≡ some r
        → All (Passes valid rs) ms
        → All (Spares c k) ms
        → All (λ m. targets c k m ≡ false) ms
    All-Spares_apart rs c k r [] found passed spares = tt
    All-Spares_apart rs c k r (m ∷ ms) found (p, passed) (q, spares) =
        (spared rs c k r m found p q, All-Spares_apart rs c k r ms found passed spares)

    -- A record stays that no mutation of a transaction replaces or deletes.
    pub apply_keeps :
        (s : Store V) (ms : List (Mutation V)) (c k : String) (r : Record V)
        → All (Spares c k) ms
        → find_record c k s.records ≡ some r
        → find_record c k (apply valid s ms).1.records ≡ some r
    apply_keeps s ms c k r spares found = elim (Result-cases (apply valid s ms).0) [
      | inl (rs, e) ↦
          let done = apply-ok valid s ms e in
          apply_frame s ms c k (All-Spares_apart s.records c k r ms found done.passed spares)
          ∙ found
      | inr (e, f) ↦ rw (apply-err valid s ms f) found
    ]

-- The first mutation of a transaction, a put, is found if no later one acts at its place.
pub first_found :
    {V : Type 0} (start rs : List (Record V)) (a : Mutation V) (ms : List (Mutation V))
    → (a.op == mutation_delete) ≡ false
    → All (λ m. targets a.collection a.key m ≡ false) ms
    → find_record a.collection a.key (perform_all (map (pending_of start) (a ∷ ms)) rs)
      ≡ some (new_record (pending_of start a))
unfolding perform_all
first_found start rs a ms put_op later =
    perform_all_frame a.collection a.key start ms (perform (pending_of start a) rs) later
    ∙ ground (
      arith,
      find-perform (pending_of start a) rs a.collection a.key,
      eq_refl a.collection,
      eq_refl a.key,
    )
