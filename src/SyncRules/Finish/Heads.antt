-- ===== src/SyncRules/Finish/Heads.antt =====
-- The head of a scope only moves forward, whatever is recorded.
use barq_control_plane.Base.{
  ℕ, String, ◌≡◌, ◌≤◌, refl, ap, ◌∙◌, ◌==◌, eq_iff, true, false, some, Result, ok, err, arith, inl,
  inr, Bool-cases,
}
use barq_control_plane.Base.Results.{Result-cases}
use barq_control_plane.Control.Types.{Record, encode, decode}
use barq_control_plane.Control.Checks.{version_matches}
use barq_control_plane.Control.Store.{Store, find_record, get, put}
use barq_control_plane.Control.Store.Laws.{find-put_record, version_of}
use barq_control_plane.Control.Store.Calls.{get-ok, put-ok, put-err}
use barq_control_plane.Control.Store.Steps.{and_then}
use barq_control_plane.Control.Store.Frames.{put_frame}
use barq_control_plane.Auth.Types.{Time}
use barq_control_plane.Auth.Tenants.{Scope}
use barq_control_plane.SyncRules.Types.{Head, RulesEnv, IsLawfulRules, head_collection}
use barq_control_plane.SyncRules.Keys.{scope_key}
use barq_control_plane.SyncRules.Keys.Laws.{scope_key-injective}
use barq_control_plane.SyncRules.Finish.{
  HeadPlan, keep_head, write_over, head_of, plan_head, put_head, write_head,
}

pub and_then_store :
    {V A : Type 0} (x : Result A × Store V) → (and_then x λ r t. (ok (tt {0}), t)).1 ≡ x.1
and_then_store (ok a, s) = refl
and_then_store (err e, s) = refl

module _ {V : Type 0} (env : RulesEnv V) where
  -- The head that a store has for a scope.
  pub record HeadAt (s : Store V) (scope : Scope) (h : Head) : Type 0 where
    pub place : Record V
    pub found : find_record head_collection (scope_key scope) s.records ≡ some place
    pub reads : decode env.heads place ≡ ok h

  -- Every scope with a head has one afterwards, of the same revision or a later one.
  abbrev pub HeadsGrow : Store V → Store V → Type 0
  HeadsGrow s t =
      (scope : Scope) (h : Head)
      → HeadAt s scope h
      → (h' : Head) × HeadAt t scope h' × (h.revision ≤ h'.revision)

  pub grow_refl : (s : Store V) → HeadsGrow s s
  grow_refl s scope h a = (h, a, omega arith)

  pub grow_trans : (s t u : Store V) → HeadsGrow s t → HeadsGrow t u → HeadsGrow s u
  grow_trans s t u f g scope h a =
      let (h', a', le) = f scope h a in
      let (h'', a'', le') = g scope h' a' in (h'', a'', omega arith)

  -- Where no head is touched, none falls.
  pub grow_frame :
      (s t : Store V)
      → ((k : String)
          → find_record head_collection k t.records ≡ find_record head_collection k s.records)
      → HeadsGrow s t
  grow_frame s t frame scope h a = (
    h,
    record { place = a.place; found = frame (scope_key scope) ∙ a.found; reads = a.reads },
    omega arith,
  )

  plan_head-rises :
      (revision v : ℕ) (hash : String) (r : Result (Record V)) (place : Record V) (h : Head)
      → plan_head env revision hash r ≡ ok (write_over v)
      → ((q : Record V) → r ≡ ok q → q ≡ place)
      → decode env.heads place ≡ ok h
      → version_matches (some v) (some place.version) ≡ true
      → h.revision ≤ revision
  unfolding plan_head version_matches
  plan_head-rises revision v hash (err e) place h planned same reads matched = ground arith
  plan_head-rises revision v hash (ok q) place h planned same reads matched =
      ground (arith, same q refl, reads)

  -- A store that differs in the head of one scope alone, which has risen.
  pub head_written :
      (s t : Store V) (scope : Scope) (new : Head) (q : Record V)
      → ((k : String)
          → (scope_key scope == k) ≡ false
          → find_record head_collection k t.records ≡ find_record head_collection k s.records)
      → find_record head_collection (scope_key scope) t.records ≡ some q
      → decode env.heads q ≡ ok new
      → ((h : Head) → HeadAt s scope h → h.revision ≤ new.revision)
      → HeadsGrow s t
  head_written s t scope new q frame there reads rise other h a =
      elim (Bool-cases (scope_key scope == scope_key other)) [
        | inl p ↦
            let same : scope ≡ other =
              scope_key-injective scope other ((eq_iff (scope_key scope) (scope_key other)).0 p) in
            (
              new,
              record { place = q; found = rw (← same) there; reads = reads },
              rise h (rw (← same) at a),
            )
        | inr p ↦ (
          h,
          record { place = a.place; found = frame (scope_key other) p ∙ a.found; reads = a.reads },
          omega arith,
        )
      ]

  -- A head that a plan lets be written over is not later than the new one.
  pub rises :
      (s : Store V) (scope : Scope) (revision v : ℕ) (hash : String)
      → plan_head env revision hash (get s head_collection (scope_key scope)) ≡ ok (write_over v)
      → version_matches
          (some v)
          (version_of (find_record head_collection (scope_key scope) s.records))
        ≡ true
      → (h : Head) → HeadAt s scope h
      → h.revision ≤ revision
  rises s scope revision v hash planned matched h a =
      plan_head-rises revision v hash (get s head_collection (scope_key scope)) a.place h planned
        (λ q e. cc (get-ok s head_collection (scope_key scope) e, a.found)) a.reads
        (rw a.found at matched)

  module _ (law : IsLawfulRules env) where
    put_head-HeadsGrow :
        (s : Store V) (scope : Scope) (new : Head) (value : V) (v : ℕ)
        → encode env.heads new ≡ ok value
        → (version_matches
                (some v)
                (version_of (find_record head_collection (scope_key scope) s.records))
              ≡ true
            → (h : Head) → HeadAt s scope h
            → h.revision ≤ new.revision)
        → HeadsGrow s (put env.valid s head_collection (scope_key scope) value (some v)).1
    put_head-HeadsGrow s scope new value v made rise =
        let x = put env.valid s head_collection (scope_key scope) value (some v) in
        elim (Result-cases x.0) [
          | inl (q, e) ↦
              let p = put-ok env.valid s head_collection (scope_key scope) value (some v) e in
              head_written s x.1 scope new q
                (λ k apart.
                  put_frame env.valid s head_collection (scope_key scope) value (some v)
                    head_collection k (ground (arith, apart)))
                (rw p.stored (
                  ground (
                    arith,
                    find-put_record q s.records head_collection (scope_key scope),
                    p.named,
                    eq_iff q.collection head_collection,
                    eq_iff q.key (scope_key scope),
                  )))
                (ap (λ (r : Record V). env.heads.unmarshal r.value) p.named
                  ∙ law.heads_law.unmarshal-marshal new value made)
                (rise p.matched)
          | inr (e, f) ↦
              rw (put-err env.valid s head_collection (scope_key scope) value (some v) f)
                (grow_refl s)
        ]

    planned-HeadsGrow :
        (s : Store V) (now : Time) (scope : Scope) (revision : ℕ) (hash : String) (value : V)
        (plan : Result HeadPlan)
        → plan_head env revision hash (get s head_collection (scope_key scope)) ≡ plan
        → encode env.heads (head_of now scope revision hash) ≡ ok value
        → HeadsGrow s (put_head env scope value s plan).1
    unfolding put_head
    planned-HeadsGrow s now scope revision hash value (err e) planned made = grow_refl s
    planned-HeadsGrow s now scope revision hash value (ok keep_head) planned made = grow_refl s
    planned-HeadsGrow s now scope revision hash value (ok (write_over v)) planned made =
        rw (and_then_store (put env.valid s head_collection (scope_key scope) value (some v))) (
          put_head-HeadsGrow s scope (head_of now scope revision hash) value v made
            (rises s scope revision v hash planned))

    pub write_head-HeadsGrow :
        (now : Time) (scope : Scope) (revision : ℕ) (hash : String) (s : Store V)
        → HeadsGrow s (write_head env now scope revision hash s).1
    unfolding write_head
    write_head-HeadsGrow now scope revision hash s =
        elim (Result-cases (encode env.heads (head_of now scope revision hash))) [
          | inl (value, made) ↦
              rw (made, write_head)
                (planned-HeadsGrow s now scope revision hash value
                  (plan_head env revision hash (get s head_collection (scope_key scope))) refl made)
          | inr (e, f) ↦ rw (f, write_head) (grow_refl s)
        ]
