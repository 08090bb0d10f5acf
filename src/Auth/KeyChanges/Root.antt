-- ===== src/Auth/KeyChanges/Root.antt =====
-- The last enabled global admin key stays: `ensureAnotherRoot` at work.
use barq_control_plane.Base.{
  String, ◌≡◌, ap, ◌∙◌, true, false, some, ok, arith, inl, inr, Bool-cases,
}
use barq_control_plane.Base.Results.{Result-cases}
use barq_control_plane.Control.Types.{decode}
use barq_control_plane.Control.Store.{Store, find_record}
use barq_control_plane.Auth.Types.{
  Time, ServiceKey, UpdateServiceKeyInput, AuthEnv, IsLawful, api_key_collection,
}
use barq_control_plane.Auth.Keys.{is_root_key, ensure_another_root}
use barq_control_plane.Auth.Keys.Laws.{IsKeyTable, HasRoot, read_key-ok, ensure_another_root-ok}
use barq_control_plane.Auth.KeyChanges.{check_root, update_key}
use barq_control_plane.Auth.KeyChanges.Laws.{StoredUpdate, updated, update_key-ok, update_key-err}
use barq_control_plane.Auth.Keys.Places.{root_kept, root_put, same_key}

module _ {V : Type 0} (env : AuthEnv V) where
  -- A key that stops being a root key was checked: another one is stored, and it is not this one.
  module _ (now : Time) (id : String) (input : UpdateServiceKeyInput) (s t : Store V)
      (tab : IsKeyTable env s) (u : StoredUpdate env now id input s t) where
    open u use {planned, place, stored, in_keys, under_digest, reads}

    abbrev written : ServiceKey
    written = updated now input planned.old planned.label planned.actions

    old_place :
        (find_record api_key_collection planned.at.key s.records ≡ some planned.at)
        × (decode env.keys planned.at ≡ ok planned.old)
        × (planned.old.id ≡ id)
    old_place = read_key-ok env s id tab.table planned.was_read

    place_key : place.key ≡ planned.at.key
    place_key = under_digest ∙ tab.by_digest planned.at planned.old old_place.0 old_place.1

    was_root : is_root_key planned.old ≡ true → is_root_key written ≡ false → HasRoot env t
    unfolding check_root is_root_key
    was_root before after =
        let checked : ensure_another_root env s id ≡ ok tt = ground (arith, planned.rooted) in
        let (r, key, found, reads_key, other, root) =
          ensure_another_root-ok env s id tab.table checked in
        root_kept env s t place r key stored found reads_key root λ e. other (
          ap (λ (k : ServiceKey). k.id)
            (same_key env s r planned.at key planned.old found old_place.0 reads_key old_place.1
              (e ∙ place_key))
          ∙ old_place.2)

    was_not_root : HasRoot env s → is_root_key planned.old ≡ false → HasRoot env t
    was_not_root (r, key, found, reads_key, root) before =
        root_kept env s t place r key stored found reads_key root λ e.
          let same =
            same_key env s r planned.at key planned.old found old_place.0 reads_key old_place.1
              (e ∙ place_key) in
          cc (same, root, before, ap is_root_key same)

    stored_update-HasRoot : HasRoot env s → HasRoot env t
    stored_update-HasRoot root = elim (Bool-cases (is_root_key written)) [
      | inl still ↦ root_put env s t place written stored in_keys reads still
      | inr gone ↦ elim (Bool-cases (is_root_key planned.old)) [
        | inl before ↦ was_root before gone
        | inr before ↦ was_not_root root before
      ]
    ]

  -- Updating a key, revoking it included, never takes away the last enabled global admin key.
  pub update_key-HasRoot :
      (now : Time) (id : String) (input : UpdateServiceKeyInput) (s : Store V)
      → IsLawful env
      → IsKeyTable env s
      → HasRoot env s
      → HasRoot env (update_key env now id input s).1
  update_key-HasRoot now id input s law tab root =
      elim (Result-cases (update_key env now id input s).0) [
        | inr (e, failed) ↦ rw (update_key-err env now id input s failed) root
        | inl (view, done) ↦
            stored_update-HasRoot now id input s _ tab (update_key-ok env law now id input s done)
              root
      ]
