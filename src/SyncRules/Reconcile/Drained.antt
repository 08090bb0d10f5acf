-- ===== src/SyncRules/Reconcile/Drained.antt =====
-- What `Reconcile` leaves of the interrupted requests.
use barq_control_plane.Base.{
  String, ◌≡◌, refl, sym, ap, ◌∙◌, not, ◌&&◌, leb, none, some, List, [], ◌∷◌, Result, ok, err, inl,
  inr, Bool-cases, Option-cases,
}
use barq_control_plane.Base.Results.{Result-cases}
use barq_control_plane.Base.Lists.{In}
use barq_control_plane.Control.Types.{Record, decode}
use barq_control_plane.Control.Store.{Store, find_record, list, delete}
use barq_control_plane.Control.Store.Laws.{found_at}
use barq_control_plane.Control.Store.Tables.{
  IsTable, find_record-In, In-find_record, In-list, list-In,
}
use barq_control_plane.Auth.Types.{Time}
use barq_control_plane.SyncRules.Types.{
  FlxRuleSet, PendingApply, Core, World, RulesEnv, pending_collection,
}
use barq_control_plane.SyncRules.Service.{recovered_revision}
use barq_control_plane.SyncRules.Reconcile.{
  is_target, catch_up, resolve, resolved, reconcile_record, reconcile_records, reconcile,
}
use barq_control_plane.SyncRules.Reconcile.Laws.{
  unless_missing_store, reconcile_record-respects, reconcile_records-respects,
}
use barq_control_plane.SyncRules.Reconcile.Shrinks.{
  Shrinks, SameOrGone, gone_joined, Shrinks-IsFinished,
}
use barq_control_plane.SyncRules.Reconcile.Removed.{
  IsWorking, delete_gone, finish_apply_gone, still_gone,
}

module _ {V C : Type 0} (env : RulesEnv V) (core : Core V C) where
  resolve_gone :
      (now : Time) (r : Record V) (pending : PendingApply) (current : FlxRuleSet) (s : Store V)
      {u : Unit {0}}
      → IsWorking s
      → find_record pending_collection r.key s.records ≡ some r
      → (resolve env core now r pending current s).0 ≡ ok u
      → find_record pending_collection r.key (resolve env core now r pending current s).1.records
        ≡ none
  unfolding resolve
  resolve_gone now r pending current s working found h =
      let past =
        leb pending.target_revision current.revision && not (is_target env core pending current) in
      elim (Bool-cases past) [
        | inl p ↦ rw p (
            rw
              (unless_missing_store env core Shrinks (Shrinks-IsFinished env)
                (delete env.valid env.nil s pending_collection r.key (some r.version)))
              (delete_gone env.valid env.nil s r working found))
        | inr p ↦ elim (Bool-cases (not (is_target env core pending current))) [
          | inl q ↦ cc (rw (p, q) at h)
          | inr q ↦
              rw (p, q)
                (finish_apply_gone env now (recovered_revision pending current) r s working found
                  (rw (p, q) at h))
        ]
      ]

  resolved_gone :
      (now : Time) (r : Record V) (pending : PendingApply) (s : Store V) (x : Result FlxRuleSet × C)
      {u : Unit {0}}
      → IsWorking s
      → find_record pending_collection r.key s.records ≡ some r
      → (resolved env core now r pending s x).0 ≡ ok u
      → find_record pending_collection r.key (resolved env core now r pending s x).1.store.records
        ≡ none
  resolved_gone now r pending s (err e, c) working found h = cc
  resolved_gone now r pending s (ok current, c) working found h =
      resolve_gone now r pending current s working found h

  record_gone :
      (now : Time) (r : Record V) (w : World V C) {u : Unit {0}}
      → IsWorking w.store
      → find_record pending_collection r.key w.store.records ≡ some r
      → (reconcile_record env core now r w).0 ≡ ok u
      → find_record pending_collection r.key (reconcile_record env core now r w).1.store.records
        ≡ none
  unfolding reconcile_record
  record_gone now r w working found h = elim (Result-cases (decode env.pendings r)) [
    | inl (pending, e) ↦
        rw (e, reconcile_record)
          (resolved_gone now r pending w.store (catch_up env core w.core pending) working found
            (rw (e, reconcile_record) at h))
    | inr (e, f) ↦ cc (rw (f, reconcile_record) at h)
  ]

  first_gone :
      (now : Time) (r : Record V) (w : World V C) {u : Unit {0}}
      → IsWorking w.store
      → SameOrGone (some r) (find_record pending_collection r.key w.store.records)
      → (reconcile_record env core now r w).0 ≡ ok u
      → find_record pending_collection r.key (reconcile_record env core now r w).1.store.records
        ≡ none
  first_gone now r w working (inl found) h = record_gone now r w working found h
  first_gone now r w working (inr gone) h =
      still_gone w.store _ r.key
        (reconcile_record-respects env core Shrinks (Shrinks-IsFinished env) now r w) gone

  IsWorking-kept : (s t : Store V) → Shrinks s t → IsWorking s → IsWorking t
  IsWorking-kept s t shrunk working = record {
    calm = λ q. ap (λ f. f q) shrunk.same_fault ∙ working.calm q;
    keyed = still_gone s t "" shrunk working.keyed;
    numbered = λ k r found. elim (shrunk.requests k) [
      | inl same ↦ working.numbered k r (sym same ∙ found)
      | inr gone ↦ cc (gone, found)
    ];
  }

  -- The records of the list are stored, or were taken away.
  abbrev Listed : List (Record V) → Store V → Type 0
  Listed rs s =
      (r : Record V)
      → In r rs
      → SameOrGone (some r) (find_record pending_collection r.key s.records)

  all_gone :
      (clock : String → Time) (rs : List (Record V)) (w : World V C) {u : Unit {0}}
      → IsWorking w.store
      → Listed rs w.store
      → (reconcile_records env core clock rs w).0 ≡ ok u
      → (r : Record V) → In r rs
      → find_record pending_collection r.key (reconcile_records env core clock rs w).1.store.records
        ≡ none
  unfolding reconcile_records
  all_gone clock [] w working listed h r m = absurd m
  all_gone clock (q ∷ rs) w working listed h r m =
      let x = reconcile_record env core (clock q.key) q w in
      let step =
        reconcile_record-respects env core Shrinks (Shrinks-IsFinished env) (clock q.key) q w in
      let rest =
        reconcile_records-respects env core Shrinks (Shrinks-IsFinished env) clock rs x.1 in
      elim (Result-cases x.0) [
        | inr (e, f) ↦ cc (rw (f, reconcile_records) at h)
        | inl (u, e) ↦
            rw (e, reconcile_records)
              (elim m [
                | inl same ↦ rw (← same) (
                    still_gone x.1.store _ q.key rest
                      (first_gone (clock q.key) q w working (listed q (inl refl)) e))
                | inr later ↦
                    all_gone clock rs x.1 (IsWorking-kept w.store x.1.store step working)
                      (λ p n. gone_joined (some p) _ _ (listed p (inr n)) (step.requests p.key))
                      (rw (e, reconcile_records) at h) r later
              ])
      ]

  drained :
      (clock : String → Time) (w : World V C) (rs : List (Record V)) {u : Unit {0}}
      → IsTable w.store.records
      → IsWorking w.store
      → list w.store pending_collection "" ≡ ok rs
      → (reconcile_records env core clock rs w).0 ≡ ok u
      → (k : String)
      → find_record pending_collection k (reconcile_records env core clock rs w).1.store.records
        ≡ none
  drained clock w rs tab working all h k =
      elim (Option-cases (find_record pending_collection k w.store.records)) [
        | inl gone ↦
            still_gone w.store _ k
              (reconcile_records-respects env core Shrinks (Shrinks-IsFinished env) clock rs w) gone
        | inr (r, found) ↦
            let (in_pending, at_key) = found_at pending_collection k w.store.records found in
            let stored = find_record-In pending_collection k w.store.records found in
            let listed = list-In w.store pending_collection r all stored in_pending in
            rw (← at_key) (
              all_gone clock rs w working
                (λ q m.
                  let (place, named) = In-list w.store pending_collection "" q all m in
                  inl (rw (← named) (In-find_record q w.store.records tab place)))
                h r listed)
      ]

  -- If records occur once, the environment does not fail, and every request has a key and a version
  -- that is not zero, then after a `Reconcile` that succeeds no interrupted request is stored any
  -- more, whatever Core answered.
  pub reconcile_drains :
      (clock : String → Time) (w : World V C)
      → IsTable w.store.records
      → IsWorking w.store
      → (reconcile env core clock w).0 ≡ ok tt
      → (k : String)
      → find_record pending_collection k (reconcile env core clock w).1.store.records ≡ none
  unfolding reconcile
  reconcile_drains clock w tab working h k =
      elim (Result-cases (list w.store pending_collection "")) [
        | inl (rs, e) ↦
            rw (e, reconcile) (drained clock w rs tab working e (rw (e, reconcile) at h) k)
        | inr (e, f) ↦ cc (rw (f, reconcile) at h)
      ]
