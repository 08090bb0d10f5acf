-- ===== src/Auth/KeyChanges/Rotate.antt =====
-- What creating and rotating a key stores.
use barq_control_plane.Base.{
  ℕ, String, ◌≡◌, refl, sym, ap₂, ◌∙◌, true, false, Option, none, some, List, [], ◌∷◌, Error,
  Result, ok, err, inl, inr, Bool-cases,
}
use barq_control_plane.Base.Results.{bind_elim, ok-injective, Result-cases}
use barq_control_plane.Control.Types.{Record, decode, encode}
use barq_control_plane.Control.Store.{Store, find_record, put_record}
use barq_control_plane.Control.Store.Calls.{valid_of}
use barq_control_plane.Auth.Types.{Time, ServiceKey, AuthEnv, IsLawful, or_nil, api_key_collection}
use barq_control_plane.Auth.Types.Laws.{or_nil_read_back}
use barq_control_plane.Auth.Keys.{key_view, read_key}
use barq_control_plane.Base.{suc, zero, conflict, coded, is_code, not_found, ◌<>◌}
use barq_control_plane.Base.Results.{ensure_elim}
use barq_control_plane.Control.Checks.{version_matches}
use barq_control_plane.Control.Store.{new_record, put_of, apply, perform_all, perform, get}
use barq_control_plane.Control.Store.Laws.{apply-ok, apply-err, Applied, pending_of, version_of}
use barq_control_plane.Auth.Types.{Draw, CreateServiceKeyInput, CreatedServiceKey}
use barq_control_plane.Auth.Types.Laws.{answer_with-ok, answer_with-err}
use barq_control_plane.Auth.Keys.{validate_scope, new_key, new_key_from, key_of}
use barq_control_plane.Auth.KeyChanges.{Rotation, plan_rotate_key, run_rotation, rotate_key}

abbrev pub copied : ServiceKey → CreateServiceKeyInput
copied old = record {
  label = old.label;
  tenant = old.tenant;
  database = old.database;
  actions = old.actions;
}

module _ {V : Type 0} (env : AuthEnv V) where
  new_key_lem :
      (s : Store V) (old : ServiceKey) (now : Time) {made : ServiceKey × String}
      → new_key env s (copied old) now ≡ ok made
      → new_key_from env 5 0 s (copied old) now ≡ ok made
  unfolding new_key
  new_key_lem s old now h = h

  pub free_of : (o : Option (Record V)) → version_matches (some 0) (version_of o) ≡ true → o ≡ none
  unfolding version_matches
  free_of none h = refl
  free_of (some r) h = cc

  pub new_key_from-ok :
      (left attempt : ℕ) (s : Store V) (input : CreateServiceKeyInput) (now : Time)
      {key : ServiceKey} {raw : String}
      → new_key_from env left attempt s input now ≡ ok (key, raw)
      → (d : Draw) × (key ≡ key_of env now input d) × (raw ≡ "barq_sk_" <> d.secret)
  unfolding new_key_from
  new_key_from-ok zero attempt s input now h = cc
  new_key_from-ok (suc left) attempt s input now {key} {raw} h =
      bind_elim (env.draw attempt) _ h λ d drawn h₁.
        elim (Result-cases (get s api_key_collection (key_of env now input d).digest)) [
          | inl (r, e) ↦ new_key_from-ok left (suc attempt) s input now (rw e at h₁)
          | inr (e, missing) ↦ elim (Bool-cases (is_code e not_found)) [
            | inl free ↦ let made = ok-injective (rw (missing, free) at h₁) in (d, cc made, cc made)
            | inr busy ↦ cc (rw (missing, busy) at h₁)
          ]
        ]

  -- What a rotation works on, and the draw of the replacement.
  pub record PlannedRotation (now : Time) (id : String) (s : Store V) : Type 0 where
    pub old : ServiceKey
    pub at : Record V
    pub draw : Draw
    pub was_read : read_key env s id ≡ ok (old, at)
    pub was_enabled : old.enabled ≡ true
    pub scoped : validate_scope env s old.tenant old.database ≡ ok tt

  -- The replacement, and the old key as it is left.
  abbrev pub replacement : Time → ServiceKey → Draw → ServiceKey
  replacement now old d = key_of env now (copied old) d

  abbrev pub retired_key : Time → ServiceKey → ServiceKey
  retired_key now old = record old { enabled = false; updated_at = now }

  abbrev pub rotation_from : ServiceKey → ℕ → ServiceKey → String → Rotation V
  rotation_from old version new raw = record {
    retired =
        put_of api_key_collection old.digest
          (or_nil env.nil (encode env.keys (retired_key new.created_at old))) (some version);
    added = put_of api_key_collection new.digest (or_nil env.nil (encode env.keys new)) (some 0);
    created = record { key = key_view new; secret = raw };
  }

  abbrev pub rotation_of :
      (now : Time) (id : String) (s : Store V) → PlannedRotation now id s → Rotation V
  rotation_of now id s p =
      rotation_from p.old p.at.version (replacement now p.old p.draw) ("barq_sk_" <> p.draw.secret)

  plan_rotate_key-ok :
      (now : Time) (id : String) (s : Store V) {r : Rotation V}
      → plan_rotate_key env now id s ≡ ok r
      → (p : PlannedRotation now id s) × (r ≡ rotation_of now id s p)
  unfolding plan_rotate_key
  plan_rotate_key-ok now id s {r} h = bind_elim (read_key env s id) _ h λ found was_read h₁.
      ensure_elim found.0.enabled (coded conflict "only an enabled API key can be rotated") _ h₁
        λ enabled h₂.
          bind_elim (validate_scope env s found.0.tenant found.0.database) _ h₂ λ u scoped h₃.
            bind_elim (new_key env s (copied found.0) now) _ h₃ λ made drawn h₄.
              let (d, key, raw) =
                new_key_from-ok 5 0 s (copied found.0) now (new_key_lem s found.0 now drawn) in
              (
                record {
                  old = found.0;
                  at = found.1;
                  draw = d;
                  was_read = was_read;
                  was_enabled = enabled;
                  scoped = scoped;
                },
                sym (ok-injective h₄) ∙ ap₂ (rotation_from found.0 found.1.version) key raw,
              )

  -- What a successful rotation has stored: both keys, in one transaction.
  pub record StoredRotation (now : Time) (id : String) (s t : Store V) : Type 0 where
    pub planned : PlannedRotation now id s
    pub old_place : Record V
    pub new_place : Record V
    pub stored : t ≡ record s { records = put_record new_place (put_record old_place s.records) }
    pub old_in_keys : old_place.collection ≡ api_key_collection
    pub new_in_keys : new_place.collection ≡ api_key_collection
    pub under_old : old_place.key ≡ planned.old.digest
    pub under_new : new_place.key ≡ (replacement now planned.old planned.draw).digest
    pub reads_old : decode env.keys old_place ≡ ok (retired_key now planned.old)
    pub reads_new : decode env.keys new_place ≡ ok (replacement now planned.old planned.draw)
    pub was_free :
        find_record api_key_collection (replacement now planned.old planned.draw).digest s.records
        ≡ none

  rotated :
      (law : IsLawful env) (now : Time) (id : String) (s t : Store V) (p : PlannedRotation now id s)
      {out : List (Record V)}
      → Applied env.valid s
          ((rotation_of now id s p).retired ∷ (rotation_of now id s p).added ∷ [])
          out
          t
      → StoredRotation now id s t
  unfolding perform_all perform
  rotated law now id s t p done =
      let r = rotation_of now id s p in
      let old = retired_key now p.old in
      let new = replacement now p.old p.draw in
      record {
        planned = p;
        old_place = new_record (pending_of s.records r.retired);
        new_place = new_record (pending_of s.records r.added);
        stored = done.stored;
        old_in_keys = refl;
        new_in_keys = refl;
        under_old = refl;
        under_new = refl;
        reads_old =
            or_nil_read_back env.valid env.nil env.keys old law.keys_law law.nil_invalid
              (valid_of _ done.passed.0.well_formed);
        reads_new =
            or_nil_read_back env.valid env.nil env.keys new law.keys_law law.nil_invalid
              (valid_of _ done.passed.1.0.well_formed);
        was_free =
            free_of (find_record api_key_collection new.digest s.records) done.passed.1.0.matched;
      }

  run_rotation-ok :
      (law : IsLawful env) (now : Time) (id : String) (s : Store V) (p : PlannedRotation now id s)
      {c : CreatedServiceKey}
      → (run_rotation env s (ok (rotation_of now id s p))).0 ≡ ok c
      → StoredRotation now id s (run_rotation env s (ok (rotation_of now id s p))).1
  unfolding run_rotation
  run_rotation-ok law now id s p h =
      let r = rotation_of now id s p in
      let ms = r.retired ∷ r.added ∷ [] in
      let (out, done, _, kept) = answer_with-ok r.created (apply env.valid s ms) h in
      rw kept (rotated law now id s _ p (apply-ok env.valid s ms done))

  not_run :
      (s : Store V) (e : Error) {c : CreatedServiceKey} → (run_rotation env s (err e)).0 ≡ ok c → ⊥
  unfolding run_rotation
  not_run s e h = cc

  run_rotation-err :
      (s : Store V) (p : Result (Rotation V)) {e : Error}
      → (run_rotation env s p).0 ≡ err e
      → (run_rotation env s p).1 ≡ s
  unfolding run_rotation
  run_rotation-err s (err e) h = refl
  run_rotation-err s (ok r) h =
      let ms = r.retired ∷ r.added ∷ [] in
      let (failed, kept) = answer_with-err r.created (apply env.valid s ms) h in
      kept ∙ apply-err env.valid s ms failed

  -- If the encoding is lawful, a rotation that succeeds has put the old key, now disabled,
  -- under its digest, and its replacement, with its label, scope and actions, under a digest
  -- where nothing was stored before; nothing else changes, and both can be read back.
  pub rotate_key-ok :
      (law : IsLawful env) (now : Time) (id : String) (s : Store V) {c : CreatedServiceKey}
      → (rotate_key env now id s).0 ≡ ok c
      → StoredRotation now id s (rotate_key env now id s).1
  unfolding rotate_key
  rotate_key-ok law now id s h = elim (Result-cases (plan_rotate_key env now id s)) [
    | inr (e, failed) ↦ absurd (not_run s e (rw (failed, rotate_key) at h))
    | inl (r, planned) ↦
        let (p, same) = plan_rotate_key-ok now id s planned in
        rw (planned, same) (run_rotation-ok law now id s p (rw (planned, same) at h))
  ]

  pub rotate_key-err :
      (now : Time) (id : String) (s : Store V) {e : Error}
      → (rotate_key env now id s).0 ≡ err e
      → (rotate_key env now id s).1 ≡ s
  unfolding rotate_key
  rotate_key-err now id s h = run_rotation-err s (plan_rotate_key env now id s) h
