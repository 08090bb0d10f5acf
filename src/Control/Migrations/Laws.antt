-- ===== src/Control/Migrations/Laws.antt =====
-- What a migration that succeeds has stored.
use barq_control_plane.Base.{
  ℕ, ◌≡◌, refl, ap, ◌∙◌, eq_iff, ◌||◌, Option, none, some, Result, ok, err, ensure, is_code,
  not_found, arith, inl, inr, Bool-cases,
}
use barq_control_plane.Base.Results.{Result-cases, ok-injective, bind_elim}
use barq_control_plane.Base.Ints.{ℤ, is_same, is_same-eq}
use barq_control_plane.Control.Types.{Record, IsCodec}
use barq_control_plane.Control.Store.{Store, find_record, get}
use barq_control_plane.Control.Store.Laws.{find-put_record}
use barq_control_plane.Control.Store.Calls.{get-ok, put-ok}
use barq_control_plane.Control.Store.Steps.{and_then}
use barq_control_plane.Control.Migrations.{
  SchemaEnv, SchemaState, check_migration, put_state, write_schema_state, read_state, settle,
  migrated, apply_migration, system_collection, schema_state_key,
}

module _ {V : Type 0} (env : SchemaEnv V) where
  -- The store has a schema state with this version.
  pub record HasVersion (version : ℤ) (t : Store V) : Type 0 where
    pub place : Record V
    pub state : SchemaState
    pub found : find_record system_collection schema_state_key t.records ≡ some place
    pub reads : env.states.unmarshal place.value ≡ ok state
    pub same : state.version ≡ version

  finish :
      (x : Result (Record V) × Store V) {u : Unit {0}}
      → (and_then x λ r t. (ok (tt {0}), t)).0 ≡ ok u
      → (r : Record V) × (x.0 ≡ ok r) × ((and_then x λ r t. (ok (tt {0}), t)).1 ≡ x.1)
  finish (ok r, t) h = (r, refl, refl)
  finish (err e, t) h = cc

  put_state-ok :
      (expected : Option ℕ) (s : Store V) (r : Result V) {u : Unit {0}}
      → (put_state env expected s r).0 ≡ ok u
      → (value : V) × (place : Record V) × (r ≡ ok value)
        × (find_record system_collection schema_state_key (put_state env expected s r).1.records
            ≡ some place)
        × (place.value ≡ value)
  put_state-ok expected s (err e) h = cc
  put_state-ok expected s (ok value) h =
      let (place, done, kept) = finish _ h in
      let p = put-ok env.valid s system_collection schema_state_key value _ done in
      (
        value,
        place,
        refl,
        rw (kept, p.stored)
            (ground (
              arith,
              find-put_record place s.records system_collection schema_state_key,
              p.named,
              eq_iff place.collection system_collection,
              eq_iff place.key schema_state_key,
            )),
        ap (λ (x : Record V). x.value) p.named,
      )

  module _ (law : IsCodec env.valid env.states) where
    written :
        (now : ℕ) (version : ℤ) (expected : Option ℕ) (s : Store V) {u : Unit {0}}
        → (write_schema_state env now version expected s).0 ≡ ok u
        → HasVersion version (write_schema_state env now version expected s).1
    unfolding write_schema_state
    written now version expected s h =
        let state : SchemaState = record { version = version; updated_at = now } in
        let (value, place, made, found, same) =
          put_state-ok expected s (env.states.marshal state) h in
        record {
          place = place;
          state = state;
          found = found;
          reads = rw same (law.unmarshal-marshal state value made);
          same = refl;
        }

    settled :
        (now : ℕ) (to : ℤ) (place : Record V) (r : Result ℤ) (s : Store V) {u : Unit {0}}
        → find_record system_collection schema_state_key s.records ≡ some place
        → ((version : ℤ)
            → r ≡ ok version
            → (state : SchemaState) × (env.states.unmarshal place.value ≡ ok state)
              × (state.version ≡ version))
        → (settle env now to place.version r s).0 ≡ ok u
        → HasVersion to (settle env now to place.version r s).1
    settled now to place (err e) s found reads h = cc
    settled now to place (ok version) s found reads h = elim (Bool-cases (is_same version to)) [
      | inl p ↦
          let (state, decoded, same) = reads version refl in
          rw p (record {
            place = place;
            state = state;
            found = found;
            reads = decoded;
            same = same ∙ is_same-eq version to p;
          })
      | inr p ↦ rw p (written now to (some place.version) s (rw p at h))
    ]

    read_state-ok :
        (place : Record V) {state : SchemaState}
        → read_state env place ≡ ok state
        → env.states.unmarshal place.value ≡ ok state
    read_state-ok place h = ground arith

    migrated-ok :
        (now : ℕ) (from to : ℤ) (s : Store V) {u : Unit {0}} (r : Result (Record V))
        → get s system_collection schema_state_key ≡ r
        → (migrated env now from to r s).0 ≡ ok u
        → HasVersion to (migrated env now from to r s).1
    migrated-ok now from to s (err e) was_read h = elim (Bool-cases (is_code e not_found)) [
      | inl p ↦ rw p (written now to none s (rw p at h))
      | inr p ↦ cc (rw p at h)
    ]
    migrated-ok now from to s (ok place) was_read h =
        settled now to place _ s (get-ok s system_collection schema_state_key was_read)
          (λ version e. bind_elim (read_state env place) _ e λ state decoded e'.
            bind_elim (ensure (is_same state.version from || is_same state.version to) _) _ e'
              λ v passed last. (state, read_state-ok place decoded, ok-injective last))
          h

    -- A migration that succeeds leaves a schema state of the version that was asked for, if
    -- the encoding of states is lawful, whether the state was missing, older, or of that
    -- version already.
    pub apply_migration-ok :
        (now : ℕ) (from to : ℤ) (s : Store V) {u : Unit {0}}
        → (apply_migration env now from to s).0 ≡ ok u
        → HasVersion to (apply_migration env now from to s).1
    unfolding apply_migration
    apply_migration-ok now from to s h = elim (Result-cases (check_migration env from to)) [
      | inl (v, p) ↦
          rw (p, apply_migration)
            (migrated-ok now from to s (get s system_collection schema_state_key) refl
              (rw (p, apply_migration) at h))
      | inr (e, p) ↦ cc (rw (p, apply_migration) at h)
    ]
