-- ===== src/Auth/KeyChanges/Secrets.antt =====
-- What a revoked or rotated key is worth.
use barq_control_plane.Base.{
  String, ◌≡◌, ◌≢◌, refl, sym, ap, ◌∙◌, eq_iff, false, some, Result, ok, err, arith,
}
use barq_control_plane.Base.Results.{ok-injective}
use barq_control_plane.Control.Types.{Record, decode}
use barq_control_plane.Control.Store.{Store, find_record}
use barq_control_plane.Control.Store.Laws.{find-put_record}
use barq_control_plane.Auth.Types.{Time, ServiceKey, AuthEnv, IsLawful, api_key_collection}
use barq_control_plane.Auth.Keys.{read_key}
use barq_control_plane.Auth.KeyChanges.{update_key}
use barq_control_plane.Auth.KeyChanges.Laws.{updated, update_key-ok}
use barq_control_plane.Control.Store.Calls.{get-ok}
use barq_control_plane.Auth.Access.{find_by_digest}
use barq_control_plane.Auth.Access.Laws.{find_by_digest_iff}
use barq_control_plane.Auth.KeyChanges.{revoke_key, revoking}
use barq_control_plane.Auth.Types.{forget_answer}

forget_answer-ok :
    {V A : Type 0} (x : Result A × Store V) {u : Unit {0}}
    → (forget_answer x).0 ≡ ok u
    → (a : A) × (x.0 ≡ ok a) × ((forget_answer x).1 ≡ x.1)
forget_answer-ok (ok a, s) h = (a, refl, refl)
forget_answer-ok (err e, s) h = cc

module _ {V : Type 0} (env : AuthEnv V) where
  -- A digest whose record holds a disabled key is refused.
  disabled_refused :
      (t : Store V) (digest : String) (place : Record V) (stored : ServiceKey)
      → find_record api_key_collection digest t.records ≡ some place
      → decode env.keys place ≡ ok stored
      → stored.enabled ≡ false
      → (key : ServiceKey) → find_by_digest env t digest ≢ ok key
  disabled_refused t digest place stored found reads off key hit =
      let a = (find_by_digest_iff env t digest key).0 hit in
      let same : a.place ≡ place = cc (found, get-ok t api_key_collection digest a.was_read) in
      let equal : stored ≡ key =
        ok-injective (sym reads ∙ ap (decode env.keys) (sym same) ∙ a.reads) in
      cc (a.enabled, off, ap (λ (k : ServiceKey). k.enabled) equal)

  -- If a key was read and revoking it succeeds, then no key is found by its digest afterwards,
  -- if the encoding is lawful.
  pub revoke_key_refused :
      (now : Time) (id : String) (s : Store V) (old : ServiceKey) (at : Record V) {u : Unit {0}}
      → IsLawful env
      → read_key env s id ≡ ok (old, at)
      → (revoke_key env now id s).0 ≡ ok u
      → (key : ServiceKey) → find_by_digest env (revoke_key env now id s).1 old.digest ≢ ok key
  unfolding revoke_key
  revoke_key_refused now id s old at law was_read h key =
      let (view, done, kept) = forget_answer-ok (update_key env now id revoking s) h in
      let u = update_key-ok env law now id revoking s done in
      let same : u.planned.old ≡ old = cc (was_read, u.planned.was_read) in
      let found : find_record api_key_collection old.digest
            (update_key env now id revoking s).1.records
          ≡ some u.place =
        rw u.stored (
          ground (
            arith,
            find-put_record u.place s.records api_key_collection old.digest,
            u.in_keys,
            u.under_digest,
            ap (λ (k : ServiceKey). k.digest) same,
            eq_iff u.place.collection api_key_collection,
            eq_iff u.place.key old.digest,
          )) in
      rw kept (
        disabled_refused _ old.digest u.place
          (updated now revoking u.planned.old u.planned.label u.planned.actions) found u.reads refl
          key)
