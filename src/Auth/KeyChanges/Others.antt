-- ===== src/Auth/KeyChanges/Others.antt =====
-- The keys beside the one that is changed.
use barq_control_plane.Base.{String, ◌≡◌, ◌≢◌, sym, ap, ◌∙◌, none, some, ok, inl, inr}
use barq_control_plane.Base.Results.{Result-cases}
use barq_control_plane.Control.Types.{Record, decode}
use barq_control_plane.Control.Store.{Store, find_record, put_record}
use barq_control_plane.Auth.Types.{
  Time, ServiceKey, CreateServiceKeyInput, UpdateServiceKeyInput, AuthEnv, IsLawful,
  api_key_collection,
}
use barq_control_plane.Auth.Types.Laws.{forget_answer_store}
use barq_control_plane.Auth.Keys.{read_key}
use barq_control_plane.Auth.Keys.Laws.{IsKeyTable, read_key-ok}
use barq_control_plane.Auth.Keys.Places.{found_kept, same_key}
use barq_control_plane.Auth.KeyChanges.{create_key, update_key, rotate_key, revoke_key, revoking}
use barq_control_plane.Auth.KeyChanges.Create.{create_key-ok, create_key-err}
use barq_control_plane.Auth.KeyChanges.Laws.{update_key-ok, update_key-err}
use barq_control_plane.Auth.KeyChanges.Rotate.{rotate_key-ok, rotate_key-err}

module _ {V : Type 0} (env : AuthEnv V) (s : Store V) (r : Record V)
    (found : find_record api_key_collection r.key s.records ≡ some r) where
  -- A place at which nothing was found is another one.
  free_elsewhere : (k : String) → find_record api_key_collection k s.records ≡ none → r.key ≢ k
  free_elsewhere k free e = cc (found, free, ap (λ x. find_record api_key_collection x s.records) e)

  pub create_key_keeps :
      (law : IsLawful env) (now : Time) (input : CreateServiceKeyInput)
      → find_record api_key_collection r.key (create_key env now input s).1.records ≡ some r
  create_key_keeps law now input = elim (Result-cases (create_key env now input s).0) [
    | inr (e, failed) ↦ rw (create_key-err env now input s failed) found
    | inl (c, done) ↦
        let u = create_key-ok env law now input s done in
        rw u.stored (
          found_kept env s u.place r found
            λ e. free_elsewhere u.key.digest u.was_free (e ∙ u.under_digest))
  ]

  module _ (law : IsLawful env) (tab : IsKeyTable env s) (key : ServiceKey)
      (reads : decode env.keys r ≡ ok key) (id : String)
      (differs : (old : ServiceKey) (at : Record V)
        → read_key env s id ≡ ok (old, at)
        → old ≢ key) where
    -- The digest of the key with this id belongs to another place.
    old_elsewhere :
        (old : ServiceKey) (at : Record V) → read_key env s id ≡ ok (old, at) → r.key ≢ old.digest
    old_elsewhere old at was_read e =
        let (found_at, reads_at, _) = read_key-ok env s id tab.table was_read in
        differs old at was_read (
          sym (
            same_key env s r at key old found found_at reads reads_at
              (e ∙ tab.by_digest at old found_at reads_at)))

    pub update_key_keeps :
        (now : Time) (input : UpdateServiceKeyInput)
        → find_record api_key_collection r.key (update_key env now id input s).1.records ≡ some r
    update_key_keeps now input = elim (Result-cases (update_key env now id input s).0) [
      | inr (e, failed) ↦ rw (update_key-err env now id input s failed) found
      | inl (view, done) ↦
          let u = update_key-ok env law now id input s done in
          rw u.stored (
            found_kept env s u.place r found
              λ e. old_elsewhere u.planned.old u.planned.at u.planned.was_read (e ∙ u.under_digest))
    ]

    pub revoke_key_keeps :
        (now : Time)
        → find_record api_key_collection r.key (revoke_key env now id s).1.records ≡ some r
    unfolding revoke_key
    revoke_key_keeps now =
        rw (forget_answer_store (update_key env now id revoking s)) (update_key_keeps now revoking)

    pub rotate_key_keeps :
        (now : Time)
        → find_record api_key_collection r.key (rotate_key env now id s).1.records ≡ some r
    rotate_key_keeps now = elim (Result-cases (rotate_key env now id s).0) [
      | inr (e, failed) ↦ rw (rotate_key-err env now id s failed) found
      | inl (c, done) ↦
          let u = rotate_key-ok env law now id s done in
          let mid = record s { records = put_record u.old_place s.records } in
          let kept =
            found_kept env s u.old_place r found
              λ e. old_elsewhere u.planned.old u.planned.at u.planned.was_read (e ∙ u.under_old) in
          rw u.stored (
            found_kept env mid u.new_place r kept
              λ e. free_elsewhere _ u.was_free (e ∙ u.under_new))
    ]
