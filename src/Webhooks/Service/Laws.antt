-- ===== src/Webhooks/Service/Laws.antt =====
-- What a successful registration has stored.
use barq_control_plane.Base.{
  String, ◌==◌, eq_iff, eq_refl, ◌≡◌, refl, sym, ap, ◌∙◌, Bool, false, some, List, [], ◌∷◌, map,
  Error, Result, ok, err, arith,
}
use barq_control_plane.Base.Results.{ok-injective, bind_elim}
use barq_control_plane.Control.Types.{Record, Mutation, encode, decode, mutation_put}
use barq_control_plane.Control.Store.{
  Store, find_record, apply, put_record, perform, perform_all, new_record,
}
use barq_control_plane.Control.Store.Laws.{
  find-put_record, apply-ok, apply-err, Applied, pending_of,
}
use barq_control_plane.Control.Store.Steps.{and_then, run_apply}
use barq_control_plane.Auth.Types.{Time}
use barq_control_plane.Webhooks.Types.{
  Webhook, Revision, Registration, Registered, HookEnv, IsLawfulHooks, webhook_collection,
  revision_collection,
}
use barq_control_plane.Webhooks.Normalize.{revision_key}
use barq_control_plane.Webhooks.Service.{
  validate, put_hook, put_revision, registered_hook, revision_of, plan_register, register,
}

module _ {V A R : Type 0} where
  finish-ok :
      (x : Result R × Store V) (b : A) {a : A}
      → (and_then x λ rs t. (ok b, t)).0 ≡ ok a
      → (rs : R) × (x.0 ≡ ok rs) × (b ≡ a) × ((and_then x λ rs t. (ok b, t)).1 ≡ x.1)
  finish-ok (ok rs, t) b h = (rs, refl, ok-injective h, refl)
  finish-ok (err e, t) b h = cc

  finish-err :
      (x : Result R × Store V) (b : A) {e : Error}
      → (and_then x λ rs t. (ok b, t)).0 ≡ err e
      → (x.0 ≡ err e) × ((and_then x λ rs t. (ok b, t)).1 ≡ x.1)
  finish-err (ok rs, t) b h = cc
  finish-err (err e, t) b h = (cc, refl)

module _ {V A : Type 0} where
  pub run_apply-ok :
      (valid : V → Bool) (s : Store V) (p : Result (List (Mutation V) × A)) {a : A}
      → (run_apply valid s p).0 ≡ ok a
      → (ms : List (Mutation V)) × (rs : List (Record V)) × (p ≡ ok (ms, a))
        × Applied valid s ms rs (run_apply valid s p).1
  run_apply-ok valid s (err e) h = cc
  run_apply-ok valid s (ok (ms, b)) h =
      let (rs, e, same, kept) = finish-ok (apply valid s ms) b h in
      (ms, rs, ap (λ x. ok (ms, x)) same, rw kept (apply-ok valid s ms e))

  pub run_apply-err :
      (valid : V → Bool) (s : Store V) (p : Result (List (Mutation V) × A)) {e : Error}
      → (run_apply valid s p).0 ≡ err e
      → (run_apply valid s p).1 ≡ s
  run_apply-err valid s (err e) h = refl
  run_apply-err valid s (ok (ms, b)) h =
      let (failed, kept) = finish-err (apply valid s ms) b h in kept ∙ apply-err valid s ms failed

-- Two puts into different collections are both found afterwards.
two_puts :
    {V : Type 0} (rs : List (Record V)) (a b : Mutation V)
    → a.op ≡ mutation_put
    → b.op ≡ mutation_put
    → (a.collection == b.collection) ≡ false
    → (t : List (Record V)) → t ≡ perform_all (pending_of rs a ∷ pending_of rs b ∷ []) rs
    → (find_record a.collection a.key t ≡ some (new_record (pending_of rs a)))
      × (find_record b.collection b.key t ≡ some (new_record (pending_of rs b)))
unfolding perform_all perform
two_puts rs a b pa pb apart t e =
    let p = new_record (pending_of rs a) in
    let q = new_record (pending_of rs b) in
    let made : t ≡ put_record q (put_record p rs) = rw (e, pa, pb) refl in
    (
      rw made (
          ground (
            arith,
            find-put_record q (put_record p rs) a.collection a.key,
            find-put_record p rs a.collection a.key,
            eq_refl a.collection,
            eq_refl a.key,
            eq_iff a.collection b.collection,
            eq_iff b.collection a.collection,
            apart,
          )),
      rw made (
          ground (
            arith,
            find-put_record q (put_record p rs) b.collection b.key,
            eq_refl b.collection,
            eq_refl b.key,
          )),
    )

module _ {V : Type 0} (env : HookEnv V) where
  plan_register-ok :
      (now : Time) (input : Registration V) {ms : List (Mutation V)} {r : Registered V}
      → plan_register env now input ≡ ok (ms, r)
      → (id : String) × (hook_value : V) × (revision_value : V) × (encode env.hooks
            (registered_hook env now id input)
          ≡ ok hook_value)
        × (encode env.revisions (revision_of env now id 1 r.secret input) ≡ ok revision_value)
        × (ms ≡ put_hook env id hook_value (some 0) ∷ put_revision env id 1 revision_value ∷ [])
        × (r.webhook ≡ registered_hook env now id input)
        × (validate env input ≡ ok tt)
  unfolding plan_register
  plan_register-ok now input h = bind_elim (validate env input) _ h λ u fine h₁.
      bind_elim env.random_hex _ h₁ λ id drawn h₂.
        bind_elim env.random_secret _ h₂ λ secret hidden h₃.
          bind_elim (encode env.hooks (registered_hook env now id input)) _ h₃ λ hv written h₄.
            bind_elim (encode env.revisions (revision_of env now id 1 secret input)) _ h₄
              λ rv revised h₅.
                let e = ok-injective h₅ in
                let same = ap (λ p. p.1.secret) e in
                (
                  id,
                  hv,
                  rv,
                  written,
                  rw (sym same) revised,
                  sym (ap (λ p. p.0) e),
                  sym (ap (λ p. p.1.webhook) e),
                  fine,
                )

  -- The webhook and the revision that stand in a store under the id.
  pub record IsStored (id : String) (hook : Webhook V) (revision : Revision) (t : Store V)
      : Type 0 where
    pub place : Record V
    pub hook_found : find_record webhook_collection id t.records ≡ some place
    pub hook_reads : decode env.hooks place ≡ ok hook
    pub revision_place : Record V
    pub revision_found :
        find_record revision_collection (revision_key id hook.active_revision) t.records
        ≡ some revision_place
    pub revision_reads : decode env.revisions revision_place ≡ ok revision

  module _ (law : IsLawfulHooks env) where
    -- If the encoding is lawful, a registration that succeeds has stored the webhook that it
    -- returns, made from its input under some id, with revision 1 active, and under the key of
    -- that revision its source and limits with the secret that it returns; both can be read
    -- back.
    pub register-ok :
        (now : Time) (input : Registration V) (s : Store V) {r : Registered V}
        → (register env now input s).0 ≡ ok r
        → (id : String) × (r.webhook ≡ registered_hook env now id input)
          × IsStored id
              (registered_hook env now id input)
              (revision_of env now id 1 r.secret input)
              (register env now input s).1
    unfolding register
    register-ok now input s {r} h =
        let (ms, rs, planned, done) = run_apply-ok env.valid s (plan_register env now input) h in
        let (id, hv, rv, written, revised, made, hook, fine) = plan_register-ok now input planned in
        let t = (register env now input s).1.records in
        let stored : t
            ≡ perform_all
                (pending_of s.records (put_hook env id hv (some 0))
                  ∷ pending_of s.records (put_revision env id 1 rv)
                  ∷ [])
                s.records =
          ap (λ (x : Store V). x.records) done.stored
          ∙ ap (λ ms. perform_all (map (pending_of s.records) ms) s.records) made in
        let found =
          two_puts s.records (put_hook env id hv (some 0)) (put_revision env id 1 rv) refl refl refl
            t stored in
        (
          id,
          hook,
          record {
            place = new_record (pending_of s.records (put_hook env id hv (some 0)));
            hook_found = found.0;
            hook_reads = law.hooks_law.unmarshal-marshal _ hv written;
            revision_place = new_record (pending_of s.records (put_revision env id 1 rv));
            revision_found = found.1;
            revision_reads = law.revisions_law.unmarshal-marshal _ rv revised;
          },
        )

  -- A registration that fails stores nothing.
  pub register-err :
      (now : Time) (input : Registration V) (s : Store V) {e : Error}
      → (register env now input s).0 ≡ err e
      → (register env now input s).1 ≡ s
  unfolding register
  register-err now input s h = run_apply-err env.valid s (plan_register env now input) h
