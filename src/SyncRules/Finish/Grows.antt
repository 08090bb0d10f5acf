-- ===== src/SyncRules/Finish/Grows.antt =====
-- Every write of the service leaves each head where it is or moves it forward.
use barq_control_plane.Base.{
  ℕ, String, ◌≡◌, refl, ◌==◌, eq_refl, false, some, List, [], ◌∷◌, ok, arith, map, inl, inr,
}
use barq_control_plane.Base.Results.{Result-cases, ok-injective, bind_elim}
use barq_control_plane.Control.Types.{Record, Mutation, mutation_delete, encode}
use barq_control_plane.Control.Store.{
  Store, find_record, get, apply, perform_all, perform, new_record, put_of, delete_of,
}
use barq_control_plane.Control.Store.Laws.{apply-ok, apply-err, pending_of}
use barq_control_plane.Control.Store.Frames.{put_frame, delete_frame, apply_frame, find-perform}
use barq_control_plane.Auth.Types.{Time}
use barq_control_plane.SyncRules.Types.{
  Revision, RulesEnv, IsLawfulRules, head_collection, revision_collection, pending_collection,
}
use barq_control_plane.SyncRules.Keys.{scope_key, revision_key}
use barq_control_plane.SyncRules.Finish.{
  HeadPlan, keep_head, write_over, head_of, plan_head, head_put, finish_mutations, plan_finish,
}
use barq_control_plane.SyncRules.Finish.Preserved.{IsRespected}
use barq_control_plane.SyncRules.Finish.Heads.{
  HeadsGrow, grow_refl, grow_trans, grow_frame, head_written, rises, write_head-HeadsGrow,
}

-- The last of three mutations, a put, is found.
pub last_found :
    {V : Type 0} (rs : List (Record V)) (a b m : Mutation V)
    → (m.op == mutation_delete) ≡ false
    → find_record m.collection m.key (perform_all (map (pending_of rs) (a ∷ b ∷ m ∷ [])) rs)
      ≡ some (new_record (pending_of rs m))
unfolding perform_all
last_found rs a b m put_op =
    let before = perform (pending_of rs b) (perform (pending_of rs a) rs) in
    ground (
      arith,
      find-perform (pending_of rs m) before m.collection m.key,
      eq_refl m.collection,
      eq_refl m.key,
    )

module _ {V : Type 0} (env : RulesEnv V) (law : IsLawfulRules env) where
  finished-HeadsGrow :
      (now : Time) (revision : Revision) (key : String) (version : ℕ) (s : Store V) (value head : V)
      (plan : HeadPlan)
      → plan_head env revision.revision revision.hash
          (get s head_collection (scope_key revision.scope))
        ≡ ok plan
      → encode env.heads (head_of now revision.scope revision.revision revision.hash) ≡ ok head
      → HeadsGrow env s
          (apply env.valid s (finish_mutations env revision key version value head plan)).1
  finished-HeadsGrow now revision key version s value head keep_head planned made =
      grow_frame env s _ λ k.
        apply_frame env.valid s (finish_mutations env revision key version value head keep_head)
          head_collection k (refl, (refl, tt))
  finished-HeadsGrow now revision key version s value head (write_over v) planned made =
      let ms = finish_mutations env revision key version value head (write_over v) in
      let sc = revision.scope in
      let x = apply env.valid s ms in
      elim (Result-cases x.0) [
        | inl (rs, e) ↦
            let done = apply-ok env.valid s ms e in
            let p = pending_of s.records (head_put env sc head v) in
            head_written env s x.1 sc (head_of now sc revision.revision revision.hash)
              (new_record p)
              (λ k apart.
                apply_frame env.valid s ms head_collection k
                  (refl, (refl, (ground (arith, apart), tt))))
              (rw done.stored (
                last_found s.records
                  (put_of revision_collection (revision_key sc revision.revision) value (some 0))
                  (delete_of env.nil pending_collection key (some version)) (head_put env sc head v)
                  refl))
              (law.heads_law.unmarshal-marshal _ head made)
              (rises env s sc revision.revision v revision.hash planned done.passed.1.1.0.matched)
        | inr (e, f) ↦ rw (apply-err env.valid s ms f) (grow_refl env s)
      ]

  pub planned_finish :
      (now : Time) (revision : Revision) (key : String) (version : ℕ) (s : Store V)
      (ms : List (Mutation V))
      → plan_finish env now revision key version s ≡ ok ms
      → HeadsGrow env s (apply env.valid s ms).1
  unfolding plan_finish
  planned_finish now revision key version s ms h =
      bind_elim (encode env.revisions revision) _ h λ value stored h₁.
        bind_elim (encode env.heads (head_of now revision.scope revision.revision revision.hash)) _
          h₁
          λ head made h₂.
            bind_elim
              (plan_head env revision.revision revision.hash
                (get s head_collection (scope_key revision.scope)))
              _ h₂
              λ plan planned h₃.
                rw (← ok-injective h₃)
                  (finished-HeadsGrow now revision key version s value head plan planned made)

  pub grow-IsRespected : IsRespected env (HeadsGrow env)
  grow-IsRespected = record {
    finished = record {
      same = grow_refl env;
      joined = grow_trans env;
      pending_delete = λ s key expected. grow_frame env s _ λ k.
          delete_frame env.valid env.nil s pending_collection key expected head_collection k refl;
      revision_put = λ s key value.
          grow_frame env s _ λ k.
            put_frame env.valid s revision_collection key value (some 0) head_collection k refl;
      head_write = write_head-HeadsGrow env law;
      finish = planned_finish;
    };
    pending_put = λ s key value expected.
        grow_frame env s _
          λ k. put_frame env.valid s pending_collection key value expected head_collection k refl;
  }
