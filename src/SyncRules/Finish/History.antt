-- ===== src/SyncRules/Finish/History.antt =====
-- The history of revisions is only added to.
use barq_control_plane.Base.{ℕ, String, ◌≡◌, refl, ◌∙◌, some, List, Result, ok, err, inl, inr}
use barq_control_plane.Base.Results.{Result-cases, ok-injective, bind_elim}
use barq_control_plane.Control.Types.{Record, Mutation, encode}
use barq_control_plane.Control.Store.{Store, find_record, get, put, apply}
use barq_control_plane.Control.Store.Frames.{put_frame, delete_frame, put_new_keeps, apply_keeps}
use barq_control_plane.Auth.Types.{Time}
use barq_control_plane.Auth.Tenants.{Scope}
use barq_control_plane.SyncRules.Types.{
  Revision, RulesEnv, head_collection, revision_collection, pending_collection,
}
use barq_control_plane.SyncRules.Keys.{scope_key}
use barq_control_plane.SyncRules.Finish.{
  HeadPlan, keep_head, write_over, head_of, plan_head, put_head, write_head, finish_mutations,
  plan_finish,
}
use barq_control_plane.SyncRules.Finish.Preserved.{IsRespected}
use barq_control_plane.SyncRules.Finish.Heads.{and_then_store}

module _ {V : Type 0} where
  -- Every stored revision is stored afterwards, unchanged.
  abbrev pub HistoryKept : Store V → Store V → Type 0
  HistoryKept s t =
      (k : String) (r : Record V)
      → find_record revision_collection k s.records ≡ some r
      → find_record revision_collection k t.records ≡ some r

module _ {V : Type 0} (env : RulesEnv V) where
  planned_kept :
      (scope : Scope) (value : V) (s : Store V) (plan : Result HeadPlan)
      → HistoryKept s (put_head env scope value s plan).1
  unfolding put_head
  planned_kept scope value s (err e) k r found = found
  planned_kept scope value s (ok keep_head) k r found = found
  planned_kept scope value s (ok (write_over v)) k r found =
      rw (and_then_store (put env.valid s head_collection (scope_key scope) value (some v))) (
        put_frame env.valid s head_collection (scope_key scope) value (some v) revision_collection k
          refl
        ∙ found)

  pub write_head_kept :
      (now : Time) (scope : Scope) (revision : ℕ) (hash : String) (s : Store V)
      → HistoryKept s (write_head env now scope revision hash s).1
  unfolding write_head
  write_head_kept now scope revision hash s =
      elim (Result-cases (encode env.heads (head_of now scope revision hash))) [
        | inl (value, made) ↦
            rw (made, write_head)
              (planned_kept scope value s
                (plan_head env revision hash (get s head_collection (scope_key scope))))
        | inr (e, f) ↦ rw (f, write_head) (λ k r found. found)
      ]

  finished_kept :
      (revision : Revision) (key : String) (version : ℕ) (s : Store V) (value head : V)
      (plan : HeadPlan)
      → HistoryKept s
          (apply env.valid s (finish_mutations env revision key version value head plan)).1
  finished_kept revision key version s value head keep_head k r found =
      apply_keeps env.valid s (finish_mutations env revision key version value head keep_head)
        revision_collection k r (inr refl, (inl refl, tt)) found
  finished_kept revision key version s value head (write_over v) k r found =
      apply_keeps env.valid s (finish_mutations env revision key version value head (write_over v))
        revision_collection k r (inr refl, (inl refl, (inl refl, tt))) found

  finish_kept :
      (now : Time) (revision : Revision) (key : String) (version : ℕ) (s : Store V)
      (ms : List (Mutation V))
      → plan_finish env now revision key version s ≡ ok ms
      → HistoryKept s (apply env.valid s ms).1
  unfolding plan_finish
  finish_kept now revision key version s ms h =
      bind_elim (encode env.revisions revision) _ h λ value stored h₁.
        bind_elim (encode env.heads (head_of now revision.scope revision.revision revision.hash)) _
          h₁
          λ head made h₂.
            bind_elim
              (plan_head env revision.revision revision.hash
                (get s head_collection (scope_key revision.scope)))
              _ h₂
              λ plan planned h₃.
                rw (← ok-injective h₃) (finished_kept revision key version s value head plan)

  pub kept-IsRespected : IsRespected env HistoryKept
  kept-IsRespected = record {
    finished = record {
      same = λ s k r found. found;
      joined = λ s t u f g k r found. g k r (f k r found);
      pending_delete = λ s key expected k r found.
          delete_frame env.valid env.nil s pending_collection key expected revision_collection k
            refl
          ∙ found;
      revision_put = λ s key value k r found.
          put_new_keeps env.valid s revision_collection key value revision_collection k r found;
      head_write = write_head_kept;
      finish = finish_kept;
    };
    pending_put = λ s key value expected k r found.
        put_frame env.valid s pending_collection key value expected revision_collection k refl
        ∙ found;
  }
