-- ===== src/Control/Store/Outcome.antt =====
-- What a transaction that succeeds leaves at every place: `BarqStore.Apply` of
-- internal/control/barq.go, as its table does it.
use barq_control_plane.Base.{
  ℕ, zero, suc, ◌+◌, ◌%◌, ◌^◌, ◌≤◌, String, ◌≡◌, refl, ◌∙◌, ◌==◌, eq_refl, if◌then◌else◌, Bool,
  true, false, Option, none, some, List, [], ◌∷◌, ok, inl, inr, arith, map, Bool-cases,
}
use barq_control_plane.Base.Lists.{All, In, contains, length}
use barq_control_plane.Base.Results.{>>=-eq-ok}
use barq_control_plane.Control.Types.{Record, Mutation, record_id, mutation_put, mutation_delete}
use barq_control_plane.Control.Checks.{check_count, version_matches, next_version, is_some}
use barq_control_plane.Control.Store.{
  Store, find_record, plan, put_results, perform, perform_all, apply, apply_of,
}
use barq_control_plane.Control.Store.Laws.{
  or_fault-ok, pending_of, version_of, commit-ok, apply-ok, Passes,
}
use barq_control_plane.Control.Store.Frames.{
  targets, find-perform, perform_all_frame, apply_frame, first_found,
}
use barq_control_plane.Control.Store.Fresh.{Fresh, Fresh-apart, IsKnown, check_all-Fresh}

module _ {V : Type 0} where
  -- The version that a mutation expects is that of the record: 0 stands for no record.
  pub data IsExpected : Option ℕ → Option (Record V) → Type 0 where
    unasked : (before : Option (Record V)) → IsExpected none before
    absent : IsExpected (some 0) none
    current : (r : Record V) → 1 ≤ r.version → IsExpected (some r.version) (some r)

  -- The version of a record that is put: 1, or one more than that of the record before it.
  pub data IsNext : Option (Record V) → ℕ → Type 0 where
    initial : IsNext none 1
    later : (r : Record V) → IsNext (some r) ((r.version + 1) % 2 ^ 64)

  -- What a mutation has done: the record that it put is there and is among the results, or the
  -- record that it deleted is gone.
  pub data Done (before after : List (Record V)) (out : List (Record V)) (m : Mutation V)
      : Type 0 where
    was_put :
        (version : ℕ)
        → m.op ≡ mutation_put
        → IsNext (find_record m.collection m.key before) version
        → find_record m.collection m.key after
          ≡ some (record {
            collection = m.collection;
            key = m.key;
            value = m.value;
            version = version;
          })
        → In
            (record { collection = m.collection; key = m.key; value = m.value; version = version })
            out
        → Done before after out m
    was_deleted :
        (old : Record V)
        → m.op ≡ mutation_delete
        → find_record m.collection m.key before ≡ some old
        → find_record m.collection m.key after ≡ none
        → Done before after out m

  module _ (valid : V → Bool) where
    IsNext-of : (before : Option (Record V)) → IsNext before (next_version (version_of before))
    IsNext-of none = initial
    IsNext-of (some r) = later r

    IsExpected-of :
        (expected : Option ℕ) (before : Option (Record V))
        → version_matches expected (version_of before) ≡ true
        → IsExpected expected before
    unfolding version_matches
    IsExpected-of none before h = unasked before
    IsExpected-of (some zero) none h = absent
    IsExpected-of (some zero) (some r) h = cc
    IsExpected-of (some (suc n)) none h = cc
    IsExpected-of (some (suc n)) (some r) h =
        let same : r.version ≡ suc n = ground arith in rw (← same) (current r (omega (arith, same)))

    All-IsExpected :
        (rs : List (Record V)) (ms : List (Mutation V))
        → All (Passes valid rs) ms
        → All (λ m. IsExpected m.expected (find_record m.collection m.key rs)) ms
    All-IsExpected rs [] h = tt
    All-IsExpected rs (m ∷ ms) (p, h) =
        (IsExpected-of m.expected _ p.matched, All-IsExpected rs ms h)

    present_before :
        (o : Option (Record V)) → is_some (version_of o) ≡ true → (r : Record V) × (o ≡ some r)
    present_before none h = cc
    present_before (some r) h = (r, refl)

    -- The first mutation, which no later one undoes.
    first_Done :
        (start rs out : List (Record V)) (m : Mutation V) (ms : List (Mutation V))
        → Passes valid start m
        → IsKnown m
        → All (λ q. targets m.collection m.key q ≡ false) ms
        → ((r : Record V) → In r (put_results (map (pending_of start) (m ∷ ms))) → In r out)
        → Done start (perform_all (map (pending_of start) (m ∷ ms)) rs) out m
    unfolding perform_all put_results IsKnown
    first_Done start rs out m ms passed (inl op) apart among =
        let put_op : (m.op == mutation_delete) ≡ false = rw op refl in
        let is_put : (m.op == mutation_put) ≡ true = rw op refl in
        was_put _ op (IsNext-of (find_record m.collection m.key start))
          (first_found start rs m ms put_op apart) (among _ (rw is_put (inl refl)))
    first_Done start rs out m ms passed (inr op) apart among =
        let is_delete : (m.op == mutation_delete) ≡ true = rw op refl in
        let (old, found) =
          present_before (find_record m.collection m.key start)
            (ground (arith, passed.present, is_delete)) in
        was_deleted old op found (
          perform_all_frame m.collection m.key start ms (perform (pending_of start m) rs) apart
          ∙ ground (
            arith,
            find-perform (pending_of start m) rs m.collection m.key,
            eq_refl m.collection,
            eq_refl m.key,
            is_delete,
          ))

    All-Done :
        (start rs out : List (Record V)) (seen : List String) (ms : List (Mutation V))
        → All (Passes valid start) ms
        → Fresh seen ms
        → All IsKnown ms
        → ((r : Record V) → In r (put_results (map (pending_of start) ms)) → In r out)
        → All (Done start (perform_all (map (pending_of start) ms) rs) out) ms
    unfolding perform_all put_results Fresh contains
    All-Done start rs out seen [] passed fresh known among = tt
    All-Done start rs out seen (m ∷ ms) (p, passed) (f, fresh) (k, known) among =
        let id = record_id m.collection m.key in
        let apart = Fresh-apart (id ∷ seen) m.collection m.key ms (rw (eq_refl id) refl) fresh in
        (
          first_Done start rs out m ms p k apart among,
          All-Done start (perform (pending_of start m) rs) out (id ∷ seen) ms passed fresh known
              λ r h. among r (elim (Bool-cases (m.op == mutation_put)) [
                | inl e ↦ rw e (inr h)
                | inr e ↦ rw e h
              ]),
        )

    -- How many of the mutations are puts.
    pub put_count : List (Mutation V) → ℕ
    put_count [] = 0
    put_count (m ∷ ms) = let rest = put_count ms in if m.op == mutation_put then suc rest else rest

    -- What a transaction that succeeds has done to the table.
    pub record Outcome (s : Store V) (ms : List (Mutation V)) (out : List (Record V)) (t : Store V)
        : Type 0 where
      pub expected : All (λ m. IsExpected m.expected (find_record m.collection m.key s.records)) ms
      pub done : All (Done s.records t.records out) ms
      pub as_many : length out ≡ put_count ms
      pub kept :
          (c k : String)
          → All (λ m. targets c k m ≡ false) ms
          → find_record c k t.records ≡ find_record c k s.records

    length-put_results :
        (start : List (Record V)) (ms : List (Mutation V))
        → length (put_results (map (pending_of start) ms)) ≡ put_count ms
    unfolding put_results put_count
    length-put_results start [] = refl
    length-put_results start (m ∷ ms) = ground (arith, length-put_results start ms)

    -- A transaction that succeeds found at every mutation the version that it expects, no record
    -- if that is 0. Afterwards each record that it put is in the table and in its answer, with
    -- version 1, or one more than the version before, modulo 2^64. Each record that it
    -- deleted was there and is not any more. The answer has as many records as the
    -- transaction has puts, and at a place that none of its mutations names the table is as it
    -- was.
    pub apply-Outcome :
        (s : Store V) (ms : List (Mutation V)) {out : List (Record V)}
        → (apply valid s ms).0 ≡ ok out
        → Outcome s ms out (apply valid s ms).1
    unfolding apply plan
    apply-Outcome s ms {out} h =
        let done = apply-ok valid s ms h in
        let (ps, planned, _, _) = commit-ok s (plan valid s ms) h in
        let counted = >>=-eq-ok (check_count ms) _ planned in
        let checked = or_fault-ok (s.fault (apply_of ms)) _ counted.2 in
        let (fresh, known) = check_all-Fresh valid s.records [] ms checked in
        record {
          expected = All-IsExpected s.records ms done.passed;
          done = rw done.stored (
              All-Done s.records s.records out [] ms done.passed fresh known
                λ r h. rw done.returned h);
          as_many = rw done.returned (length-put_results s.records ms);
          kept = λ c k apart. apply_frame valid s ms c k apart;
        }
