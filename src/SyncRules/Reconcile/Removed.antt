-- ===== src/SyncRules/Reconcile/Removed.antt =====
-- The stored requests once they are recorded or given up.
use barq_control_plane.Base.{
  arith, String, ◌≡◌, ap, ◌∙◌, ◌==◌, eq_iff, eq_refl, not, Bool, true, false, none, some, List, [],
  ◌∷◌, map, Result, ok, err, inl, inr, Bool-cases, is_code, not_found,
}
use barq_control_plane.Base.Results.{Result-cases, bind_elim, ok-injective}
use barq_control_plane.Base.Lists.{contains}
use barq_control_plane.Control.Types.{Record, Mutation, encode, decode}
use barq_control_plane.Control.Checks.{
  version_matches, check_all, check_mutation, check_count, validate_identity,
}
use barq_control_plane.Control.Store.{
  Store, Request, apply_of, find_record, get, delete, apply, plan, perform_all, delete_record,
  put_record, new_record, put_of, delete_of,
}
use barq_control_plane.Control.Store.Calls.{delete-ok}
use barq_control_plane.Control.Store.Laws.{
  apply-ok, pending_of, find-delete_record, find-put_record,
}
use barq_control_plane.Auth.Types.{Time}
use barq_control_plane.SyncRules.Types.{
  Revision, RulesEnv, head_collection, revision_collection, pending_collection,
}
use barq_control_plane.SyncRules.Keys.{scope_key, revision_key}
use barq_control_plane.SyncRules.Finish.{
  HeadPlan, keep_head, write_over, head_of, plan_head, head_put, finish_mutations, plan_finish,
  finish_known, finish_from, finish_apply,
}
use barq_control_plane.SyncRules.Finish.Recorded.{and_then_ok}
use barq_control_plane.SyncRules.Reconcile.Shrinks.{Shrinks, write_head-Shrinks}

module _ {V : Type 0} where
  -- The environment does not fail, and a request has a key, and a version from 1 on.
  pub record IsWorking (s : Store V) : Type 0 where
    pub calm : (q : Request V) → s.fault q ≡ none
    pub keyed : find_record pending_collection "" s.records ≡ none
    pub numbered :
        (k : String) (r : Record V)
        → find_record pending_collection k s.records ≡ some r
        → version_matches (some r.version) (some r.version) ≡ true

  has_key :
      (s : Store V) (r : Record V)
      → IsWorking s
      → find_record pending_collection r.key s.records ≡ some r
      → (r.key == "") ≡ false
  has_key s r working found = elim (Bool-cases (r.key == "")) [
    | inr p ↦ p
    | inl p ↦ cc (
      working.keyed,
      found,
      ap (λ k. find_record pending_collection k s.records) ((eq_iff r.key "").0 p),
    )
  ]

  delete_present :
      (valid : V → Bool) (nil : V) (s : Store V) (r : Record V)
      → IsWorking s
      → find_record pending_collection r.key s.records ≡ some r
      → (delete valid nil s pending_collection r.key (some r.version)).0 ≡ ok tt
  unfolding delete apply plan check_all check_mutation check_count validate_identity contains
  delete_present valid nil s r working found = ground (
    arith,
    working.calm (apply_of (delete_of nil pending_collection r.key (some r.version) ∷ [])),
    found,
    has_key s r working found,
    working.numbered r.key r found,
  )

  pub deleted_gone :
      (k : String) (rs : List (Record V))
      → find_record pending_collection k (delete_record pending_collection k rs) ≡ none
  deleted_gone k rs =
      ground (arith, find-delete_record pending_collection k rs pending_collection k, eq_refl k)

  pub delete_gone :
      (valid : V → Bool) (nil : V) (s : Store V) (r : Record V)
      → IsWorking s
      → find_record pending_collection r.key s.records ≡ some r
      → find_record pending_collection r.key
          (delete valid nil s pending_collection r.key (some r.version)).1.records
        ≡ none
  delete_gone valid nil s r working found =
      rw
        (delete-ok valid nil s pending_collection r.key (some r.version)
          (delete_present valid nil s r working found)).0
        (deleted_gone r.key s.records)

  pub still_gone :
      (s t : Store V) (k : String)
      → Shrinks s t
      → find_record pending_collection k s.records ≡ none
      → find_record pending_collection k t.records ≡ none
  still_gone s t k shrunk gone = elim (shrunk.requests k) [
    | inl same ↦ same ∙ gone
    | inr gone_now ↦ gone_now
  ]

module _ {V : Type 0} (env : RulesEnv V) (now : Time) (revision : Revision) (r : Record V)
    (s : Store V) (working : IsWorking s)
    (found : find_record pending_collection r.key s.records ≡ some r) where
  known_gone :
      (stored : Result Revision) {u : Unit {0}}
      → (finish_known env now revision r.key r.version s stored).0 ≡ ok u
      → find_record pending_collection r.key
          (finish_known env now revision r.key r.version s stored).1.records
        ≡ none
  unfolding finish_known
  known_gone (err e) h = cc
  known_gone (ok stored) h = elim (Bool-cases (not (stored.hash == revision.hash))) [
    | inl p ↦ cc (rw (p, finish_known) at h)
    | inr p ↦
        let t = (delete env.valid env.nil s pending_collection r.key (some r.version)).1 in
        rw (p, finish_known)
          (still_gone t _ r.key
            (write_head-Shrinks env now revision.scope revision.revision revision.hash t)
            (delete_gone env.valid env.nil s r working found))
  ]

  abbrev recorded : V → List (Record V)
  recorded value =
      put_record
        (new_record (
          pending_of s.records (
            put_of revision_collection (revision_key revision.scope revision.revision) value
              (some 0))))
        s.records

  performed_gone :
      (value head : V) (plan : HeadPlan)
      → find_record pending_collection r.key (
          perform_all
            (map
              (pending_of s.records)
              (finish_mutations env revision r.key r.version value head plan))
            s.records)
        ≡ none
  unfolding perform_all
  performed_gone value head keep_head = deleted_gone r.key (recorded value)
  performed_gone value head (write_over v) =
      find-put_record (new_record (pending_of s.records (head_put env revision.scope head v)))
        (delete_record pending_collection r.key (recorded value)) pending_collection r.key
      ∙ deleted_gone r.key (recorded value)

  planned_gone :
      (ms : List (Mutation V)) {rs : List (Record V)}
      → plan_finish env now revision r.key r.version s ≡ ok ms
      → (apply env.valid s ms).0 ≡ ok rs
      → find_record pending_collection r.key (apply env.valid s ms).1.records ≡ none
  unfolding plan_finish
  planned_gone ms h e = bind_elim (encode env.revisions revision) _ h λ value stored h₁.
      bind_elim (encode env.heads (head_of now revision.scope revision.revision revision.hash)) _ h₁
        λ head made h₂.
          bind_elim
            (plan_head env revision.revision revision.hash
              (get s head_collection (scope_key revision.scope)))
            _ h₂
            λ plan planned h₃.
              rw (apply-ok env.valid s ms e).stored
                (rw (← ok-injective h₃) (performed_gone value head plan))

  -- Once its revision was recorded, a request is no longer stored.
  pub finish_apply_gone :
      {u : Unit {0}}
      → (finish_apply env now revision r.key r.version s).0 ≡ ok u
      → find_record pending_collection r.key
          (finish_apply env now revision r.key r.version s).1.records
        ≡ none
  unfolding finish_apply finish_from
  finish_apply_gone h =
      let place = revision_key revision.scope revision.revision in
      elim (Result-cases (get s revision_collection place)) [
        | inl (q, e) ↦
            rw (e, finish_apply) (known_gone (decode env.revisions q) (rw (e, finish_apply) at h))
        | inr (e, f) ↦ elim (Bool-cases (not (is_code e not_found))) [
          | inl p ↦ cc (rw (f, p, finish_apply) at h)
          | inr p ↦ elim (Result-cases (plan_finish env now revision r.key r.version s)) [
            | inr (e', failed) ↦ cc (rw (f, p, failed, finish_apply) at h)
            | inl (ms, planned) ↦
                let (rs, done, kept) =
                  and_then_ok (apply env.valid s ms) (rw (f, p, planned, finish_apply) at h) in
                rw (f, p, planned, finish_apply) (rw kept (planned_gone ms planned done))
          ]
        ]
      ]
