-- ===== src/SyncRules/Finish/Frame.antt =====
-- The collections beside the three of sync rules.
use barq_control_plane.Base.{ℕ, String, ◌≡◌, ◌==◌, false, some, List, ok, err, inl, inr}
use barq_control_plane.Base.Results.{Result-cases, ok-injective, bind_elim}
use barq_control_plane.Control.Types.{Mutation, encode}
use barq_control_plane.Control.Store.{Store, get, put, apply}
use barq_control_plane.Control.Store.Spared.{
  Spared, Spared-same, Spared-joined, put_spares, delete_spares, apply_spares,
}
use barq_control_plane.Base.{Result}
use barq_control_plane.Auth.Types.{Time}
use barq_control_plane.Auth.Tenants.{Scope}
use barq_control_plane.SyncRules.Types.{
  Revision, RulesEnv, head_collection, revision_collection, pending_collection,
}
use barq_control_plane.SyncRules.Keys.{scope_key}
use barq_control_plane.SyncRules.Finish.{
  HeadPlan, keep_head, write_over, head_of, plan_head, put_head, write_head, finish_mutations,
  plan_finish,
}
use barq_control_plane.SyncRules.Finish.Heads.{and_then_store}
use barq_control_plane.SyncRules.Finish.Preserved.{IsRespected}

-- No collection of sync rules.
pub record IsElsewhere (c : String) : Type 0 where
  pub no_revision : (revision_collection == c) ≡ false
  pub no_head : (head_collection == c) ≡ false
  pub no_pending : (pending_collection == c) ≡ false

module _ {V : Type 0} (env : RulesEnv V) (c : String) (apart : IsElsewhere c) where
  planned_frame :
      (scope : Scope) (value : V) (s : Store V) (plan : Result HeadPlan)
      → Spared c s (put_head env scope value s plan).1
  unfolding put_head
  planned_frame scope value s (err e) = Spared-same c s
  planned_frame scope value s (ok keep_head) = Spared-same c s
  planned_frame scope value s (ok (write_over v)) =
      rw (and_then_store (put env.valid s head_collection (scope_key scope) value (some v)))
        (put_spares env.valid c s head_collection (scope_key scope) value (some v) apart.no_head)

  write_head_frame :
      (now : Time) (scope : Scope) (revision : ℕ) (hash : String) (s : Store V)
      → Spared c s (write_head env now scope revision hash s).1
  unfolding write_head
  write_head_frame now scope revision hash s =
      elim (Result-cases (encode env.heads (head_of now scope revision hash))) [
        | inl (value, made) ↦
            rw (made, write_head)
              (planned_frame scope value s
                (plan_head env revision hash (get s head_collection (scope_key scope))))
        | inr (e, f) ↦ rw (f, write_head) (Spared-same c s)
      ]

  finished_frame :
      (revision : Revision) (key : String) (version : ℕ) (s : Store V) (value head : V)
      (plan : HeadPlan)
      → Spared c s (apply env.valid s (finish_mutations env revision key version value head plan)).1
  finished_frame revision key version s value head keep_head =
      apply_spares env.valid c s (finish_mutations env revision key version value head keep_head)
        (apart.no_revision, (apart.no_pending, tt))
  finished_frame revision key version s value head (write_over v) =
      apply_spares env.valid c s
        (finish_mutations env revision key version value head (write_over v))
        (apart.no_revision, (apart.no_pending, (apart.no_head, tt)))

  finish_frame :
      (now : Time) (revision : Revision) (key : String) (version : ℕ) (s : Store V)
      (ms : List (Mutation V))
      → plan_finish env now revision key version s ≡ ok ms
      → Spared c s (apply env.valid s ms).1
  unfolding plan_finish
  finish_frame now revision key version s ms h =
      bind_elim (encode env.revisions revision) _ h λ value stored h₁.
        bind_elim (encode env.heads (head_of now revision.scope revision.revision revision.hash)) _
          h₁
          λ head made h₂.
            bind_elim
              (plan_head env revision.revision revision.hash
                (get s head_collection (scope_key revision.scope)))
              _ h₂
              λ plan planned h₃.
                rw (← ok-injective h₃) (finished_frame revision key version s value head plan)

  pub Spared-IsRespected : IsRespected env (Spared c)
  Spared-IsRespected = record {
    finished = record {
      same = Spared-same c;
      joined = Spared-joined c;
      pending_delete = λ s key expected.
          delete_spares env.valid c s env.nil pending_collection key expected apart.no_pending;
      revision_put = λ s key value.
          put_spares env.valid c s revision_collection key value (some 0) apart.no_revision;
      head_write = write_head_frame;
      finish = finish_frame;
    };
    pending_put = λ s key value expected.
        put_spares env.valid c s pending_collection key value expected apart.no_pending;
  }
