-- ===== src/Control/Store/Laws.antt =====
-- How the operations of a store read one another.
use barq_control_plane.Base.Results.{>>=-eq-ok}
use barq_control_plane.Base.{
  ◌∙◌, ap, ℕ, String, ◌≡◌, refl, ◌==◌, eq_iff, if◌then◌else◌, Bool, true, false, ◌&&◌, not, Option,
  none, some, List, [], ◌∷◌, Error, Result, ok, err, arith, map,
}
use barq_control_plane.Base.Lists.{All}
use barq_control_plane.Control.Types.{Record, Mutation, record_id, mutation_put, mutation_delete}
use barq_control_plane.Control.Checks.{
  Pending, check_all, check_mutation, check_count, version_matches, is_some, next_version,
}
use barq_control_plane.Control.Store.{
  look_up, or_fault, apply_of, commit, plan, put_results, Store, is_at, find_record, put_record,
  delete_record, perform_all, apply,
}

pub or_fault-ok :
    {A : Type 0} (o : Option Error) (r : Result A) {a : A} → or_fault o r ≡ ok a → r ≡ ok a
or_fault-ok none r h = h
or_fault-ok (some e) r h = cc

module _ {V : Type 0} where
  pub find-put_record :
      (r : Record V) (rs : List (Record V)) (c k : String)
      → find_record c k (put_record r rs) ≡ (if is_at c k r then some r else find_record c k rs)
  unfolding find_record put_record
  find-put_record r [] c k = refl
  find-put_record r (q ∷ rs) c k = ground (
    arith,
    find-put_record r rs c k,
    eq_iff q.collection r.collection,
    eq_iff q.key r.key,
    eq_iff q.collection c,
    eq_iff q.key k,
    eq_iff r.collection c,
    eq_iff r.key k,
  )

  pub find-delete_record :
      (a b : String) (rs : List (Record V)) (c k : String)
      → find_record c k (delete_record a b rs)
        ≡ (if a == c && b == k then none else find_record c k rs)
  unfolding find_record delete_record
  find-delete_record a b [] c k = ground arith
  find-delete_record a b (q ∷ rs) c k = ground (
    arith,
    find-delete_record a b rs c k,
    eq_iff q.collection a,
    eq_iff q.key b,
    eq_iff q.collection c,
    eq_iff q.key k,
    eq_iff a c,
    eq_iff b k,
  )

  -- Whoever found the record at these names found a record with these names.
  pub found_at :
      (c k : String) (rs : List (Record V)) {r : Record V}
      → find_record c k rs ≡ some r
      → (r.collection ≡ c) × (r.key ≡ k)
  unfolding find_record
  found_at c k [] h = cc
  found_at c k (q ∷ rs) {r} h =
      ground (arith, found_at c k rs {r = r}, eq_iff q.collection c, eq_iff q.key k)

  abbrev pub version_of : Option (Record V) → Option ℕ
  version_of none = none
  version_of (some r) = some r.version

  -- The version that a table holds where a mutation acts.
  abbrev pub version_at : List (Record V) → Mutation V → Option ℕ
  version_at rs m = version_of (find_record m.collection m.key rs)

  -- What a mutation becomes by its checks against a table.
  abbrev pub pending_of : List (Record V) → Mutation V → Pending V (Unit {0})
  pending_of rs m = record {
    mutation = m;
    object = elim (version_at rs m) [ none ↦ none | some v ↦ some tt ];
    next = next_version (version_at rs m);
  }

  -- The checks that a mutation has passed against a table.
  pub record Passes (valid : V → Bool) (rs : List (Record V)) (m : Mutation V) : Type 0 where
    pub matched : version_matches m.expected (version_at rs m) ≡ true
    pub well_formed : (m.op == mutation_put && not (valid m.value)) ≡ false
    pub present : (m.op == mutation_delete && not (is_some (version_at rs m))) ≡ false

  -- What a successful transaction has done.
  pub record Applied (valid : V → Bool) (s : Store V) (ms : List (Mutation V))
      (out : List (Record V)) (t : Store V) : Type 0 where
    pub stored : t ≡ record s { records = perform_all (map (pending_of s.records) ms) s.records }
    pub returned : out ≡ put_results (map (pending_of s.records) ms)
    pub passed : All (Passes valid s.records) ms

  commit-err :
      (s : Store V) (r : Result (List (Pending V (Unit {0})))) {e : Error}
      → (commit s r).0 ≡ err e
      → (commit s r).1 ≡ s
  commit-err s (err e) h = refl
  commit-err s (ok ps) h = cc

  pub commit-ok :
      (s : Store V) (r : Result (List (Pending V (Unit {0})))) {out : List (Record V)}
      → (commit s r).0 ≡ ok out
      → (ps : List (Pending V (Unit {0}))) × (r ≡ ok ps)
        × ((commit s r).1 ≡ record s { records = perform_all ps s.records })
        × (out ≡ put_results ps)
  commit-ok s (err e) h = cc
  commit-ok s (ok ps) h = (ps, refl, refl, cc)

  module _ (valid : V → Bool) where
    check_mutation-ok :
        (rs : List (Record V)) (seen : List String) (m : Mutation V) {p : Pending V (Unit {0})}
        → check_mutation valid (look_up rs) seen m ≡ ok p
        → (p ≡ pending_of rs m) × Passes valid rs m
    unfolding check_mutation
    check_mutation-ok rs seen m h = ground arith

    check_all-ok :
        (rs : List (Record V)) (seen : List String) (ms : List (Mutation V))
        {ps : List (Pending V (Unit {0}))}
        → check_all valid (look_up rs) seen ms ≡ ok ps
        → (ps ≡ map (pending_of rs) ms) × All (Passes valid rs) ms
    unfolding check_all
    check_all-ok rs seen [] h = (ground arith, tt)
    check_all-ok rs seen (m ∷ ms) h =
        let first = >>=-eq-ok (check_mutation valid (look_up rs) seen m) _ h in
        let later = record_id m.collection m.key ∷ seen in
        let rest = >>=-eq-ok (check_all valid (look_up rs) later ms) _ first.2 in
        let one = check_mutation-ok rs seen m first.1 in
        let more = check_all-ok rs later ms rest.1 in (cc (rest.2, one.0, more.0), (one.1, more.1))

    plan-ok :
        (s : Store V) (ms : List (Mutation V)) {ps : List (Pending V (Unit {0}))}
        → plan valid s ms ≡ ok ps
        → (ps ≡ map (pending_of s.records) ms) × All (Passes valid s.records) ms
    unfolding plan
    plan-ok s ms h =
        let counted = >>=-eq-ok (check_count ms) _ h in
        check_all-ok s.records [] ms (or_fault-ok (s.fault (apply_of ms)) _ counted.2)

    -- A transaction that fails changes nothing.
    pub apply-err :
        (s : Store V) (ms : List (Mutation V)) {e : Error}
        → (apply valid s ms).0 ≡ err e
        → (apply valid s ms).1 ≡ s
    unfolding apply
    apply-err s ms h = commit-err s (plan valid s ms) h

    -- A transaction that succeeds had at every mutation the version that it expects, valid
    -- JSON in every put and a record for every deletion, all in the table before it. It makes
    -- all its changes and returns the records that it put.
    pub apply-ok :
        (s : Store V) (ms : List (Mutation V)) {out : List (Record V)}
        → (apply valid s ms).0 ≡ ok out
        → Applied valid s ms out (apply valid s ms).1
    unfolding apply
    apply-ok s ms h =
        let run = commit-ok s (plan valid s ms) h in
        let checks = plan-ok s ms run.1 in
        record {
          stored = run.2 ∙ ap (λ ps. record s { records = perform_all ps s.records }) checks.0;
          returned = run.3 ∙ ap put_results checks.0;
          passed = checks.1;
        }
