-- ===== src/SyncRules/Finish/Recorded.antt =====
-- What is stored once a revision was recorded successfully.
use barq_control_plane.Base.{
  ℕ, String, ◌≡◌, ◌≤◌, refl, ap, ◌∙◌, ◌==◌, eq_iff, not, some, List, [], ◌∷◌, Result, ok, err,
  arith, map, inl, inr, Bool-cases, is_code, not_found,
}
use barq_control_plane.Base.Results.{Result-cases, ok-injective, bind_elim}
use barq_control_plane.Control.Types.{Record, Mutation, encode, decode}
use barq_control_plane.Control.Store.{
  Store, find_record, get, put, delete, apply, perform_all, new_record, put_of, delete_of,
}
use barq_control_plane.Control.Store.Laws.{apply-ok, pending_of, find-put_record}
use barq_control_plane.Control.Store.Calls.{get-ok, put-ok}
use barq_control_plane.Control.Store.Steps.{and_then}
use barq_control_plane.Control.Store.Frames.{delete_frame, apply_frame, first_found}
use barq_control_plane.Auth.Types.{Time}
use barq_control_plane.Auth.Tenants.{Scope}
use barq_control_plane.SyncRules.Types.{
  Revision, Head, RulesEnv, IsLawfulRules, head_collection, revision_collection, pending_collection,
}
use barq_control_plane.SyncRules.Keys.{scope_key, revision_key}
use barq_control_plane.SyncRules.Finish.{
  HeadPlan, keep_head, write_over, head_of, plan_head, put_head, write_head, head_put,
  finish_mutations, plan_finish, finish_known, finish_from, finish_apply,
}
use barq_control_plane.SyncRules.Finish.Heads.{HeadAt}
use barq_control_plane.SyncRules.Finish.History.{write_head_kept}
use barq_control_plane.SyncRules.Finish.Grows.{last_found}

pub and_then_ok :
    {V A : Type 0} (x : Result A × Store V) {u : Unit {0}}
    → (and_then x λ r t. (ok (tt {0}), t)).0 ≡ ok u
    → (a : A) × (x.0 ≡ ok a) × ((and_then x λ r t. (ok (tt {0}), t)).1 ≡ x.1)
and_then_ok (ok a, s) h = (a, refl, refl)
and_then_ok (err e, s) h = cc

module _ {V : Type 0} (env : RulesEnv V) where
  -- A head of this revision or a later one.
  pub record HasHead (t : Store V) (scope : Scope) (revision : ℕ) : Type 0 where
    pub head : Head
    pub stored : HeadAt env t scope head
    pub reached : revision ≤ head.revision

  -- The revision of the scope is stored with this hash, and the head has reached it.
  pub record IsRecorded (t : Store V) (scope : Scope) (revision : ℕ) (hash : String) : Type 0 where
    pub place : Record V
    pub stored : Revision
    pub found : find_record revision_collection (revision_key scope revision) t.records ≡ some place
    pub reads : decode env.revisions place ≡ ok stored
    pub same_hash : stored.hash ≡ hash
    pub headed : HasHead t scope revision

  keep_head-ok :
      (revision : ℕ) (hash : String) (r : Result (Record V))
      → plan_head env revision hash r ≡ ok keep_head
      → (q : Record V) × (h : Head) × (r ≡ ok q)
        × (decode env.heads q ≡ ok h)
        × (revision ≤ h.revision)
  unfolding plan_head
  keep_head-ok revision hash (err e) planned = ground arith
  keep_head-ok revision hash (ok q) planned =
      bind_elim (decode env.heads q) _ planned
        λ stored reads rest. (q, stored, refl, reads, ground (arith, rest))

  kept_head :
      (s : Store V) (scope : Scope) (revision : ℕ) (hash : String)
      → plan_head env revision hash (get s head_collection (scope_key scope)) ≡ ok keep_head
      → HasHead s scope revision
  kept_head s scope revision hash planned =
      let (q, h, was_read, reads, reached) = keep_head-ok revision hash _ planned in
      record {
        head = h;
        stored = record {
          place = q;
          found = get-ok s head_collection (scope_key scope) was_read;
          reads = reads;
        };
        reached = reached;
      }

  module _ (law : IsLawfulRules env) where
    put_head-ok :
        (now : Time) (scope : Scope) (revision : ℕ) (hash : String) (value : V) (s : Store V)
        (plan : Result HeadPlan) {u : Unit {0}}
        → plan_head env revision hash (get s head_collection (scope_key scope)) ≡ plan
        → encode env.heads (head_of now scope revision hash) ≡ ok value
        → (put_head env scope value s plan).0 ≡ ok u
        → HasHead (put_head env scope value s plan).1 scope revision
    unfolding put_head
    put_head-ok now scope revision hash value s (err e) planned made h = cc
    put_head-ok now scope revision hash value s (ok keep_head) planned made h =
        kept_head s scope revision hash planned
    put_head-ok now scope revision hash value s (ok (write_over v)) planned made h =
        let x = put env.valid s head_collection (scope_key scope) value (some v) in
        let (q, e, kept) = and_then_ok x h in
        let p = put-ok env.valid s head_collection (scope_key scope) value (some v) e in
        record {
          head = head_of now scope revision hash;
          stored = record {
            place = q;
            found =
                rw (kept, p.stored)
                  (ground (
                    arith,
                    find-put_record q s.records head_collection (scope_key scope),
                    p.named,
                    eq_iff q.collection head_collection,
                    eq_iff q.key (scope_key scope),
                  ));
            reads =
                ap (λ (r : Record V). env.heads.unmarshal r.value) p.named
                ∙ law.heads_law.unmarshal-marshal _ value made;
          };
          reached = omega arith;
        }

    pub write_head-ok :
        (now : Time) (scope : Scope) (revision : ℕ) (hash : String) (s : Store V) {u : Unit {0}}
        → (write_head env now scope revision hash s).0 ≡ ok u
        → HasHead (write_head env now scope revision hash s).1 scope revision
    unfolding write_head
    write_head-ok now scope revision hash s h =
        elim (Result-cases (encode env.heads (head_of now scope revision hash))) [
          | inl (value, made) ↦
              rw (made, write_head)
                (put_head-ok now scope revision hash value s
                  (plan_head env revision hash (get s head_collection (scope_key scope))) refl made
                  (rw (made, write_head) at h))
          | inr (e, f) ↦ cc (rw (f, write_head) at h)
        ]

    finish_known-ok :
        (now : Time) (revision : Revision) (key : String) (version : ℕ) (s : Store V)
        (place : Record V) {u : Unit {0}}
        → find_record revision_collection (revision_key revision.scope revision.revision) s.records
          ≡ some place
        → (finish_known env now revision key version s (decode env.revisions place)).0 ≡ ok u
        → IsRecorded
            (finish_known env now revision key version s (decode env.revisions place)).1
            revision.scope
            revision.revision
            revision.hash
    unfolding finish_known
    finish_known-ok now revision key version s place found h =
        let t = (delete env.valid env.nil s pending_collection key (some version)).1 in
        let where_ = revision_key revision.scope revision.revision in
        elim (Result-cases (decode env.revisions place)) [
          | inr (e, f) ↦ cc (rw (f, finish_known) at h)
          | inl (stored, reads) ↦ elim (Bool-cases (not (stored.hash == revision.hash))) [
            | inl p ↦ cc (rw (reads, p, finish_known) at h)
            | inr p ↦
                rw (reads, p, finish_known)
                  (record {
                    place = place;
                    stored = stored;
                    found =
                        write_head_kept env now revision.scope revision.revision revision.hash t
                          where_ place
                          (delete_frame env.valid env.nil s pending_collection key (some version)
                              revision_collection where_ refl
                            ∙ found);
                    reads = reads;
                    same_hash = ground (arith, eq_iff stored.hash revision.hash);
                    headed =
                        write_head-ok now revision.scope revision.revision revision.hash t
                          (rw (reads, p, finish_known) at h);
                  })
          ]
        ]

    finished-found :
        (revision : Revision) (key : String) (version : ℕ) (s : Store V) (value head : V)
        (plan : HeadPlan)
        → find_record revision_collection (revision_key revision.scope revision.revision) (
            perform_all
              (map
                (pending_of s.records)
                (finish_mutations env revision key version value head plan))
              s.records)
          ≡ some (
              new_record (
                pending_of s.records (
                  put_of revision_collection
                    (revision_key revision.scope revision.revision)
                    value
                    (some 0))))
    finished-found revision key version s value head keep_head =
        first_found s.records s.records
          (put_of revision_collection (revision_key revision.scope revision.revision) value
            (some 0))
          (delete_of env.nil pending_collection key (some version) ∷ []) refl (refl, tt)
    finished-found revision key version s value head (write_over v) =
        first_found s.records s.records
          (put_of revision_collection (revision_key revision.scope revision.revision) value
            (some 0))
          (delete_of env.nil pending_collection key (some version)
            ∷ head_put env revision.scope head v
            ∷ [])
          refl (refl, (refl, tt))

    finished-headed :
        (now : Time) (revision : Revision) (key : String) (version : ℕ) (s : Store V)
        (value head : V) (plan : HeadPlan) {rs : List (Record V)}
        → plan_head env revision.revision revision.hash
            (get s head_collection (scope_key revision.scope))
          ≡ ok plan
        → encode env.heads (head_of now revision.scope revision.revision revision.hash) ≡ ok head
        → (apply env.valid s (finish_mutations env revision key version value head plan)).0 ≡ ok rs
        → HasHead
            (apply env.valid s (finish_mutations env revision key version value head plan)).1
            revision.scope
            revision.revision
    finished-headed now revision key version s value head keep_head planned made e =
        let old = kept_head s revision.scope revision.revision revision.hash planned in
        record {
          head = old.head;
          stored = record {
            place = old.stored.place;
            found =
                apply_frame env.valid s
                  (finish_mutations env revision key version value head keep_head) head_collection
                  (scope_key revision.scope) (refl, (refl, tt))
                ∙ old.stored.found;
            reads = old.stored.reads;
          };
          reached = old.reached;
        }
    finished-headed now revision key version s value head (write_over v) planned made e =
        let ms = finish_mutations env revision key version value head (write_over v) in
        let done = apply-ok env.valid s ms e in
        let sc = revision.scope in
        record {
          head = head_of now sc revision.revision revision.hash;
          stored = record {
            place = new_record (pending_of s.records (head_put env sc head v));
            found = rw done.stored (
                last_found s.records
                  (put_of revision_collection (revision_key sc revision.revision) value (some 0))
                  (delete_of env.nil pending_collection key (some version)) (head_put env sc head v)
                  refl);
            reads = law.heads_law.unmarshal-marshal _ head made;
          };
          reached = omega arith;
        }

    planned-IsRecorded :
        (now : Time) (revision : Revision) (key : String) (version : ℕ) (s : Store V)
        (ms : List (Mutation V)) {rs : List (Record V)}
        → plan_finish env now revision key version s ≡ ok ms
        → (apply env.valid s ms).0 ≡ ok rs
        → IsRecorded (apply env.valid s ms).1 revision.scope revision.revision revision.hash
    unfolding plan_finish
    planned-IsRecorded now revision key version s ms h e =
        bind_elim (encode env.revisions revision) _ h λ value written h₁.
          bind_elim (encode env.heads (head_of now revision.scope revision.revision revision.hash))
            _ h₁
            λ head made h₂.
              bind_elim
                (plan_head env revision.revision revision.hash
                  (get s head_collection (scope_key revision.scope)))
                _ h₂
                λ plan planned h₃.
                  let same = ok-injective h₃ in
                  let done = apply-ok env.valid s ms e in
                  record {
                    place = new_record (
                        pending_of s.records (
                          put_of revision_collection (revision_key revision.scope revision.revision)
                            value (some 0)));
                    stored = revision;
                    found =
                        rw done.stored
                          (rw (← same) (finished-found revision key version s value head plan));
                    reads = law.revisions_law.unmarshal-marshal revision value written;
                    same_hash = refl;
                    headed = rw (← same) (
                        finished-headed now revision key version s value head plan planned made
                          (rw (← same) at e));
                  }

    -- Recording a revision that succeeds leaves it stored, readable and with its hash, and the head
    -- of its scope at this revision or a later one.
    pub finish_apply-ok :
        (now : Time) (revision : Revision) (key : String) (version : ℕ) (s : Store V) {u : Unit {0}}
        → (finish_apply env now revision key version s).0 ≡ ok u
        → IsRecorded
            (finish_apply env now revision key version s).1
            revision.scope
            revision.revision
            revision.hash
    unfolding finish_apply finish_from
    finish_apply-ok now revision key version s h =
        let place = revision_key revision.scope revision.revision in
        elim (Result-cases (get s revision_collection place)) [
          | inl (r, e) ↦
              rw (e, finish_apply)
                (finish_known-ok now revision key version s r (get-ok s revision_collection place e)
                  (rw (e, finish_apply) at h))
          | inr (e, f) ↦ elim (Bool-cases (not (is_code e not_found))) [
            | inl p ↦ cc (rw (f, p, finish_apply) at h)
            | inr p ↦ elim (Result-cases (plan_finish env now revision key version s)) [
              | inr (e', failed) ↦ cc (rw (f, p, failed, finish_apply) at h)
              | inl (ms, planned) ↦
                  let (rs, done, kept) =
                    and_then_ok (apply env.valid s ms) (rw (f, p, planned, finish_apply) at h) in
                  rw (f, p, planned, finish_apply)
                    (rw kept (planned-IsRecorded now revision key version s ms planned done))
            ]
          ]
        ]
