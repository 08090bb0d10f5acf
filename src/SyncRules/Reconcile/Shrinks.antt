-- ===== src/SyncRules/Reconcile/Shrinks.antt =====
-- The stored requests while revisions are recorded.
use barq_control_plane.Base.{
  arith, ℕ, String, ◌≡◌, refl, ◌∙◌, ◌==◌, Bool, true, false, Option, none, some, List, [], ◌∷◌, map,
  Result, ok, err, inl, inr, ◌⊎◌,
}
use barq_control_plane.Base.Results.{Result-cases, bind_elim, ok-injective}
use barq_control_plane.Control.Types.{Record, Mutation, encode, mutation_delete}
use barq_control_plane.Control.Store.{
  Store, find_record, get, put, delete, apply, perform, perform_all, first, forget, put_of,
  delete_of,
}
use barq_control_plane.Control.Store.Frames.{find-perform}
use barq_control_plane.Control.Store.Laws.{apply-ok, apply-err, pending_of}
use barq_control_plane.Auth.Types.{Time}
use barq_control_plane.Auth.Tenants.{Scope}
use barq_control_plane.SyncRules.Types.{
  Revision, RulesEnv, head_collection, revision_collection, pending_collection,
}
use barq_control_plane.SyncRules.Keys.{scope_key}
use barq_control_plane.SyncRules.Finish.{
  HeadPlan, keep_head, write_over, head_of, plan_head, put_head, write_head, finish_mutations,
  plan_finish,
}
use barq_control_plane.SyncRules.Finish.Heads.{and_then_store}
use barq_control_plane.SyncRules.Finish.Preserved.{IsFinished}

module _ {V : Type 0} where
  -- The same record, or none.
  abbrev pub SameOrGone : Option (Record V) → Option (Record V) → Type 0
  SameOrGone before after = (after ≡ before) ⊎ (after ≡ none)

  -- No request is added or changed, and the environment answers as it did.
  pub record Shrinks (s t : Store V) : Type 0 where
    pub same_fault : t.fault ≡ s.fault
    pub requests :
        (k : String)
        → SameOrGone
            (find_record pending_collection k s.records)
            (find_record pending_collection k t.records)

  -- No mutation puts a request.
  abbrev pub NoRequest : Mutation V → Type 0
  NoRequest m = ((m.collection == pending_collection) ≡ false) ⊎ ((m.op == mutation_delete) ≡ true)

  abbrev pub NoRequests : List (Mutation V) → Type 0
  NoRequests [] = Unit
  NoRequests (m ∷ ms) = NoRequest m × NoRequests ms

  pub gone_joined : (a b c : Option (Record V)) → SameOrGone a b → SameOrGone b c → SameOrGone a c
  gone_joined a b c f (inr gone) = inr gone
  gone_joined a b c (inl same) (inl e) = inl (e ∙ same)
  gone_joined a b c (inr gone) (inl e) = inr (e ∙ gone)

  perform_all_shrinks :
      (k : String) (start : List (Record V)) (ms : List (Mutation V)) (rs : List (Record V))
      → NoRequests ms
      → SameOrGone
          (find_record pending_collection k rs)
          (find_record pending_collection k (perform_all (map (pending_of start) ms) rs))
  unfolding perform_all
  perform_all_shrinks k start [] rs h = inl refl
  perform_all_shrinks k start (m ∷ ms) rs (p, h) =
      gone_joined _ _ _
        (ground (arith, find-perform (pending_of start m) rs pending_collection k, p))
        (perform_all_shrinks k start ms (perform (pending_of start m) rs) h)

  pub Shrinks-same : (s : Store V) → Shrinks s s
  Shrinks-same s = record { same_fault = refl; requests = λ k. inl refl }

  pub Shrinks-joined : (s t u : Store V) → Shrinks s t → Shrinks t u → Shrinks s u
  Shrinks-joined s t u f g = record {
    same_fault = g.same_fault ∙ f.same_fault;
    requests = λ k. gone_joined _ _ _ (f.requests k) (g.requests k);
  }

  module _ (valid : V → Bool) (s : Store V) where
    pub apply-Shrinks : (ms : List (Mutation V)) → NoRequests ms → Shrinks s (apply valid s ms).1
    apply-Shrinks ms h = elim (Result-cases (apply valid s ms).0) [
      | inl (rs, e) ↦ rw (apply-ok valid s ms e).stored (record {
        same_fault = refl;
        requests = λ k. perform_all_shrinks k s.records ms s.records h;
      })
      | inr (e, f) ↦ rw (apply-err valid s ms f) (Shrinks-same s)
    ]

    first-Shrinks : (x : Result (List (Record V)) × Store V) → Shrinks s x.1 → Shrinks s (first x).1
    first-Shrinks (err e, t) h = h
    first-Shrinks (ok [], t) h = h
    first-Shrinks (ok (r ∷ rs), t) h = h

    forget-Shrinks :
        (x : Result (List (Record V)) × Store V) → Shrinks s x.1 → Shrinks s (forget x).1
    forget-Shrinks (err e, t) h = h
    forget-Shrinks (ok rs, t) h = h

    pub put-Shrinks :
        (a b : String) (v : V) (expected : Option ℕ)
        → (a == pending_collection) ≡ false
        → Shrinks s (put valid s a b v expected).1
    unfolding put
    put-Shrinks a b v expected h =
        first-Shrinks (apply valid s (put_of a b v expected ∷ []))
          (apply-Shrinks (put_of a b v expected ∷ []) (inl h, tt))

    pub delete-Shrinks :
        (nil : V) (a b : String) (expected : Option ℕ)
        → Shrinks s (delete valid nil s a b expected).1
    unfolding delete
    delete-Shrinks nil a b expected =
        forget-Shrinks (apply valid s (delete_of nil a b expected ∷ []))
          (apply-Shrinks (delete_of nil a b expected ∷ []) (inr refl, tt))

module _ {V : Type 0} (env : RulesEnv V) where
  planned-Shrinks :
      (scope : Scope) (value : V) (s : Store V) (plan : Result HeadPlan)
      → Shrinks s (put_head env scope value s plan).1
  unfolding put_head
  planned-Shrinks scope value s (err e) = Shrinks-same s
  planned-Shrinks scope value s (ok keep_head) = Shrinks-same s
  planned-Shrinks scope value s (ok (write_over v)) =
      rw (and_then_store (put env.valid s head_collection (scope_key scope) value (some v)))
        (put-Shrinks env.valid s head_collection (scope_key scope) value (some v) refl)

  pub write_head-Shrinks :
      (now : Time) (scope : Scope) (revision : ℕ) (hash : String) (s : Store V)
      → Shrinks s (write_head env now scope revision hash s).1
  unfolding write_head
  write_head-Shrinks now scope revision hash s =
      elim (Result-cases (encode env.heads (head_of now scope revision hash))) [
        | inl (value, made) ↦
            rw (made, write_head)
              (planned-Shrinks scope value s
                (plan_head env revision hash (get s head_collection (scope_key scope))))
        | inr (e, f) ↦ rw (f, write_head) (Shrinks-same s)
      ]

  finished-NoRequests :
      (revision : Revision) (key : String) (version : ℕ) (value head : V) (plan : HeadPlan)
      → NoRequests (finish_mutations env revision key version value head plan)
  finished-NoRequests revision key version value head keep_head = (inl refl, (inr refl, tt))
  finished-NoRequests revision key version value head (write_over v) =
      (inl refl, (inr refl, (inl refl, tt)))

  finish-Shrinks :
      (now : Time) (revision : Revision) (key : String) (version : ℕ) (s : Store V)
      (ms : List (Mutation V))
      → plan_finish env now revision key version s ≡ ok ms
      → Shrinks s (apply env.valid s ms).1
  unfolding plan_finish
  finish-Shrinks now revision key version s ms h =
      bind_elim (encode env.revisions revision) _ h λ value stored h₁.
        bind_elim (encode env.heads (head_of now revision.scope revision.revision revision.hash)) _
          h₁
          λ head made h₂.
            bind_elim
              (plan_head env revision.revision revision.hash
                (get s head_collection (scope_key revision.scope)))
              _ h₂
              λ plan planned h₃. rw (← ok-injective h₃) (
                apply-Shrinks env.valid s _
                  (finished-NoRequests revision key version value head plan))

  pub Shrinks-IsFinished : IsFinished env Shrinks
  Shrinks-IsFinished = record {
    same = Shrinks-same;
    joined = Shrinks-joined;
    pending_delete =
        λ s key expected. delete-Shrinks env.valid s env.nil pending_collection key expected;
    revision_put =
        λ s key value. put-Shrinks env.valid s revision_collection key value (some 0) refl;
    head_write = write_head-Shrinks;
    finish = finish-Shrinks;
  }
