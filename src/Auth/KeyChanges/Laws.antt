-- ===== src/Auth/KeyChanges/Laws.antt =====
-- What changing a key does to the table of keys.
use barq_control_plane.Base.{String, ◌≡◌, sym, true, some, List, Error, ok, err}
use barq_control_plane.Base.Results.{bind_elim, ok-injective}
use barq_control_plane.Control.Types.{Record, decode, encode}
use barq_control_plane.Control.Store.{Store, put_record}
use barq_control_plane.Auth.Types.{
  Time, ServiceKey, ServiceKeyView, UpdateServiceKeyInput, AuthEnv, IsLawful, Write, or_nil,
  api_key_collection,
}
use barq_control_plane.Auth.Types.Laws.{run_write-ok, run_write-err, or_nil_read_back}
use barq_control_plane.Auth.Tenants.{new_flag}
use barq_control_plane.Auth.Keys.{key_view, read_key}
use barq_control_plane.Auth.KeyChanges.{
  new_label, new_actions, check_enabling, check_root, plan_update_key, update_key,
}

-- The key that an update writes.
abbrev pub updated :
    (now : Time) (input : UpdateServiceKeyInput) (old : ServiceKey) (label : String)
    → List String
    → ServiceKey
updated now input old label actions = record old {
  label = label;
  actions = actions;
  enabled = new_flag input.enabled old.enabled;
  updated_at = now;
}

module _ {V : Type 0} (env : AuthEnv V) where
  -- What a plan of `UpdateKey` holds.
  pub record PlannedUpdate (now : Time) (id : String) (input : UpdateServiceKeyInput) (s : Store V)
      : Type 0 where
    pub old : ServiceKey
    pub at : Record V
    pub label : String
    pub actions : List String
    pub was_read : read_key env s id ≡ ok (old, at)
    pub labelled : new_label input.label old.label ≡ ok label
    pub acting : new_actions input.actions old.actions ≡ ok actions
    pub enabling : check_enabling env s input.enabled old ≡ ok tt
    pub rooted :
        check_root env s id old (record old {
          label = label;
          actions = actions;
          enabled = new_flag input.enabled old.enabled;
        })
        ≡ ok tt

  pub plan_update_key-ok :
      (now : Time) (id : String) (input : UpdateServiceKeyInput) (s : Store V)
      {w : Write V ServiceKeyView}
      → plan_update_key env now id input s ≡ ok w
      → (p : PlannedUpdate now id input s) × (w ≡ record {
        collection = api_key_collection;
        key = p.old.digest;
        value = or_nil env.nil (encode env.keys (updated now input p.old p.label p.actions));
        expected = some p.at.version;
        answer = key_view (updated now input p.old p.label p.actions);
      })
  unfolding plan_update_key
  plan_update_key-ok now id input s h = bind_elim _ _ h λ u changed h₁.
      bind_elim (read_key env s id) _ h₁ λ found was_read h₂.
        bind_elim (new_label input.label found.0.label) _ h₂ λ label labelled h₃.
          bind_elim (new_actions input.actions found.0.actions) _ h₃ λ actions acting h₄.
            bind_elim (check_enabling env s input.enabled found.0) _ h₄ λ v enabling h₅.
              bind_elim (check_root env s id found.0 _) _ h₅ λ w rooted h₆. (
                record {
                  old = found.0;
                  at = found.1;
                  label = label;
                  actions = actions;
                  was_read = was_read;
                  labelled = labelled;
                  acting = acting;
                  enabling = enabling;
                  rooted = rooted;
                },
                sym (ok-injective h₆),
              )

  -- What a successful update has stored: the changed key, under the old digest.
  pub record StoredUpdate (now : Time) (id : String) (input : UpdateServiceKeyInput) (s t : Store V)
      : Type 0 where
    pub planned : PlannedUpdate now id input s
    pub place : Record V
    pub stored : t ≡ record s { records = put_record place s.records }
    pub in_keys : place.collection ≡ api_key_collection
    pub under_digest : place.key ≡ planned.old.digest
    pub reads :
        decode env.keys place ≡ ok (updated now input planned.old planned.label planned.actions)

  module _ (law : IsLawful env) where
    pub update_key-ok :
        (now : Time) (id : String) (input : UpdateServiceKeyInput) (s : Store V)
        {view : ServiceKeyView}
        → (update_key env now id input s).0 ≡ ok view
        → StoredUpdate now id input s (update_key env now id input s).1
    unfolding update_key
    update_key-ok now id input s h =
        let (w, planned, _, wrote) =
          run_write-ok env.valid s (plan_update_key env now id input s) h in
        let (p, written) = plan_update_key-ok now id input s planned in
        let done = wrote.is_put in
        let key = updated now input p.old p.label p.actions in
        let value = or_nil env.nil (encode env.keys key) in
        let fine : env.valid value ≡ true = cc (done.well_formed, written) in
        let named = done.named in
        record {
          planned = p;
          place = wrote.stored_record;
          stored = done.stored;
          in_keys = cc (named, written);
          under_digest = cc (named, written);
          reads = cc (
            named,
            written,
            or_nil_read_back env.valid env.nil env.keys key law.keys_law law.nil_invalid fine,
          );
        }

  -- An update that fails changes nothing.
  pub update_key-err :
      (now : Time) (id : String) (input : UpdateServiceKeyInput) (s : Store V) {e : Error}
      → (update_key env now id input s).0 ≡ err e
      → (update_key env now id input s).1 ≡ s
  unfolding update_key
  update_key-err now id input s h = run_write-err env.valid s (plan_update_key env now id input s) h
