-- ===== src/Auth/KeyChanges/Invariant.antt =====
-- Every change of a key keeps the table of keys well formed; rotation keeps a root key.
use barq_control_plane.Base.{
  String, ◌≡◌, ◌≢◌, refl, ap, ◌∙◌, ◌==◌, eq_iff, true, some, ok, arith, inl, inr, Bool-cases,
}
use barq_control_plane.Base.Results.{Result-cases}
use barq_control_plane.Control.Types.{Record, decode}
use barq_control_plane.Control.Store.{Store, find_record, put_record}
use barq_control_plane.Auth.Types.{
  Time, ServiceKey, UpdateServiceKeyInput, AuthEnv, IsLawful, api_key_collection,
}
use barq_control_plane.Auth.Keys.{is_root_key}
use barq_control_plane.Auth.Keys.Laws.{IsKeyTable, HasRoot, read_key-ok}
use barq_control_plane.Auth.KeyChanges.{update_key}
use barq_control_plane.Auth.KeyChanges.Laws.{updated, update_key-ok, update_key-err}
use barq_control_plane.Auth.Keys.Places.{
  found_kept, root_kept, root_put, same_key, put_key-IsKeyTable,
}
use barq_control_plane.Auth.KeyChanges.{rotate_key}
use barq_control_plane.Auth.KeyChanges.Rotate.{
  replacement, retired_key, StoredRotation, rotate_key-ok, rotate_key-err,
}

module _ {V : Type 0} (env : AuthEnv V) where
  pub update_key-IsKeyTable :
      (law : IsLawful env) (now : Time) (id : String) (input : UpdateServiceKeyInput) (s : Store V)
      → IsKeyTable env s
      → IsKeyTable env (update_key env now id input s).1
  update_key-IsKeyTable law now id input s tab =
      elim (Result-cases (update_key env now id input s).0) [
        | inr (e, failed) ↦ rw (update_key-err env now id input s failed) tab
        | inl (view, done) ↦
            let u = update_key-ok env law now id input s done in
            put_key-IsKeyTable env s _ u.place
              (updated now input u.planned.old u.planned.label u.planned.actions) u.stored u.in_keys
              u.under_digest u.reads tab
      ]

  pub rotate_key-IsKeyTable :
      (law : IsLawful env) (now : Time) (id : String) (s : Store V)
      → IsKeyTable env s
      → IsKeyTable env (rotate_key env now id s).1
  rotate_key-IsKeyTable law now id s tab = elim (Result-cases (rotate_key env now id s).0) [
    | inr (e, failed) ↦ rw (rotate_key-err env now id s failed) tab
    | inl (c, done) ↦
        let u = rotate_key-ok env law now id s done in
        let old = u.planned.old in
        let mid = record s { records = put_record u.old_place s.records } in
        put_key-IsKeyTable env mid _ u.new_place (replacement env now old u.planned.draw) u.stored
          u.new_in_keys u.under_new u.reads_new
          (put_key-IsKeyTable env s mid u.old_place (retired_key env now old) refl u.old_in_keys
            u.under_old u.reads_old tab)
  ]

  -- The place of the old key in a rotation, in the table before it.
  module _ (now : Time) (id : String) (s t : Store V) (tab : IsKeyTable env s)
      (u : StoredRotation env now id s t) where
    abbrev old : ServiceKey
    old = u.planned.old

    abbrev new : ServiceKey
    new = replacement env now old u.planned.draw

    abbrev mid : Store V
    mid = record s { records = put_record u.old_place s.records }

    old_found :
        (find_record api_key_collection u.planned.at.key s.records ≡ some u.planned.at)
        × (decode env.keys u.planned.at ≡ ok old)
        × (old.id ≡ id)
    old_found = read_key-ok env s id tab.table u.planned.was_read

    root_replaced : is_root_key old ≡ true → HasRoot env t
    unfolding is_root_key
    root_replaced root =
        root_put env mid t u.new_place new u.stored u.new_in_keys u.reads_new (ground arith)

    root_untouched :
        (r : Record V) (key : ServiceKey)
        → find_record api_key_collection r.key s.records ≡ some r
        → decode env.keys r ≡ ok key
        → is_root_key key ≡ true
        → r.key ≢ u.old_place.key
        → HasRoot env t
    root_untouched r key found reads root apart =
        root_kept env mid t u.new_place r key u.stored (found_kept env s u.old_place r found apart)
          reads root
          λ e. cc (
            found,
            u.was_free,
            ap (λ k. find_record api_key_collection k s.records) (e ∙ u.under_new),
          )

    root_rotated : HasRoot env s → HasRoot env t
    root_rotated (r, key, found, reads, root) = elim (Bool-cases (r.key == u.old_place.key)) [
      | inl here ↦
          let place = u.under_old ∙ tab.by_digest u.planned.at old old_found.0 old_found.1 in
          let same =
            same_key env s r u.planned.at key old found old_found.0 reads old_found.1
              ((eq_iff r.key u.old_place.key).0 here ∙ place) in
          root_replaced (cc (root, ap is_root_key same))
      | inr there ↦
          root_untouched r key found reads root λ e. cc (there, (eq_iff r.key u.old_place.key).1 e)
    ]

  -- Rotating a key never takes away the last enabled global admin key.
  pub rotate_key-HasRoot :
      (now : Time) (id : String) (s : Store V)
      → IsLawful env
      → IsKeyTable env s
      → HasRoot env s
      → HasRoot env (rotate_key env now id s).1
  rotate_key-HasRoot now id s law tab root = elim (Result-cases (rotate_key env now id s).0) [
    | inr (e, failed) ↦ rw (rotate_key-err env now id s failed) root
    | inl (c, done) ↦ root_rotated now id s _ tab (rotate_key-ok env law now id s done) root
  ]
