-- ===== src/Control/Store/Calls.antt =====
-- What one call of a store tells its client: reads, single writes and deletions.
use barq_control_plane.Base.Results.{>>=-eq-ok}
use barq_control_plane.Base.{
  ℕ, String, ◌≡◌, refl, ◌∙◌, Bool, true, false, not, Option, none, some, List, [], ◌∷◌, Error,
  Result, ok, err, ◌⊎◌, inl, inr,
}
use barq_control_plane.Control.Types.{Record}
use barq_control_plane.Control.Checks.{validate_identity, version_matches, next_version}
use barq_control_plane.Control.Store.{
  perform_all, put_results, new_record, Store, find_record, get, get_of, or_not_found, put_record,
  delete_record, apply, first, forget, put, put_of, delete, delete_of,
}
use barq_control_plane.Control.Store.Laws.{pending_of, or_fault-ok, version_of, apply-ok, apply-err}

pub valid_of : (b : Bool) → not b ≡ false → b ≡ true
valid_of true h = refl
valid_of false h = cc

module _ {V : Type 0} where
  or_not_found-ok : (o : Option (Record V)) {r : Record V} → or_not_found o ≡ ok r → o ≡ some r
  or_not_found-ok none h = cc
  or_not_found-ok (some r) h = cc

  -- A record that was read is in the table.
  pub get-ok :
      (s : Store V) (c k : String) {r : Record V}
      → get s c k ≡ ok r
      → find_record c k s.records ≡ some r
  unfolding get
  get-ok s c k h =
      let named = >>=-eq-ok (validate_identity c k) _ h in
      or_not_found-ok _ (or_fault-ok (s.fault (get_of c k)) _ named.2)

  -- What a successful write of one record has done.
  pub record IsPut (valid : V → Bool) (s : Store V) (c k : String) (v : V) (expected : Option ℕ)
      (r : Record V) (t : Store V) : Type 0 where
    pub stored : t ≡ record s { records = put_record r s.records }
    pub named : r ≡ record {
      collection = c;
      key = k;
      value = v;
      version = next_version (version_of (find_record c k s.records));
    }
    pub matched : version_matches expected (version_of (find_record c k s.records)) ≡ true
    pub well_formed : valid v ≡ true

  first-ok :
      (x : Result (List (Record V)) × Store V) {r : Record V}
      → (first x).0 ≡ ok r
      → (rs : List (Record V)) × (x.0 ≡ ok (r ∷ rs)) × ((first x).1 ≡ x.1)
  first-ok (err e, s) h = cc
  first-ok (ok [], s) h = cc
  first-ok (ok (r ∷ rs), s) h = (rs, cc, refl)

  first-err :
      (x : Result (List (Record V)) × Store V) {e : Error}
      → (first x).0 ≡ err e
      → ((e' : Error) × (x.0 ≡ err e') × ((first x).1 ≡ x.1)) ⊎ (x.0 ≡ ok [])
  first-err (err e, s) h = inl (e, refl, refl)
  first-err (ok [], s) h = inr refl
  first-err (ok (r ∷ rs), s) h = cc

  forget-ok :
      (x : Result (List (Record V)) × Store V) {u : Unit {0}}
      → (forget x).0 ≡ ok u
      → (rs : List (Record V)) × (x.0 ≡ ok rs) × ((forget x).1 ≡ x.1)
  forget-ok (err e, s) h = cc
  forget-ok (ok rs, s) h = (rs, refl, refl)

  forget-err :
      (x : Result (List (Record V)) × Store V) {e : Error}
      → (forget x).0 ≡ err e
      → (x.0 ≡ err e) × ((forget x).1 ≡ x.1)
  forget-err (err e, s) h = (cc, refl)
  forget-err (ok rs, s) h = cc

  module _ (valid : V → Bool) where
    pub put-ok :
        (s : Store V) (c k : String) (v : V) (expected : Option ℕ) {r : Record V}
        → (put valid s c k v expected).0 ≡ ok r
        → IsPut valid s c k v expected r (put valid s c k v expected).1
    unfolding put perform_all put_results
    put-ok s c k v expected {r} h =
        let m = put_of c k v expected in
        let run = first-ok (apply valid s (m ∷ [])) h in
        let done = apply-ok valid s (m ∷ []) run.1 in
        let named : r ≡ new_record (pending_of s.records m) = cc (done.returned) in
        record {
          stored = rw named (run.2 ∙ done.stored);
          named = named;
          matched = done.passed.0.matched;
          well_formed = valid_of (valid v) done.passed.0.well_formed;
        }

    pub put-err :
        (s : Store V) (c k : String) (v : V) (expected : Option ℕ) {e : Error}
        → (put valid s c k v expected).0 ≡ err e
        → (put valid s c k v expected).1 ≡ s
    unfolding put put_results
    put-err s c k v expected h =
        let m = put_of c k v expected in
        elim (first-err (apply valid s (m ∷ [])) h) [
          | inl (e, failed, same) ↦ same ∙ apply-err valid s (m ∷ []) failed
          | inr nothing ↦ cc ((apply-ok valid s (m ∷ []) nothing).returned)
        ]

    -- What a successful deletion has done.
    pub delete-ok :
        (nil : V) (s : Store V) (c k : String) (expected : Option ℕ) {u : Unit {0}}
        → (delete valid nil s c k expected).0 ≡ ok u
        → ((delete valid nil s c k expected).1 ≡ record s { records = delete_record c k s.records })
          × (version_matches expected (version_of (find_record c k s.records)) ≡ true)
    unfolding delete perform_all
    delete-ok nil s c k expected h =
        let m = delete_of nil c k expected in
        let run = forget-ok (apply valid s (m ∷ [])) h in
        let done = apply-ok valid s (m ∷ []) run.1 in (run.2 ∙ done.stored, done.passed.0.matched)

    pub delete-err :
        (nil : V) (s : Store V) (c k : String) (expected : Option ℕ) {e : Error}
        → (delete valid nil s c k expected).0 ≡ err e
        → (delete valid nil s c k expected).1 ≡ s
    unfolding delete
    delete-err nil s c k expected h =
        let m = delete_of nil c k expected in
        let run = forget-err (apply valid s (m ∷ [])) h in run.1 ∙ apply-err valid s (m ∷ []) run.0
