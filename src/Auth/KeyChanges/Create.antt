-- ===== src/Auth/KeyChanges/Create.antt =====
-- What creating a key stores.
use barq_control_plane.Base.{
  String, ◌≡◌, refl, sym, ap, ap₂, ◌∙◌, true, none, some, Error, ok, err, inl, inr,
}
use barq_control_plane.Base.Results.{bind_elim, ok-injective, Result-cases}
use barq_control_plane.Control.Types.{Record, decode, encode}
use barq_control_plane.Control.Store.{Store, find_record, put_record}
use barq_control_plane.Auth.Types.{
  Time, ServiceKey, AuthEnv, IsLawful, Write, or_nil, api_key_collection,
}
use barq_control_plane.Auth.Types.Laws.{run_write-ok, run_write-err, or_nil_read_back}
use barq_control_plane.Auth.Keys.{key_view}
use barq_control_plane.Auth.Keys.Laws.{IsKeyTable, HasRoot}
use barq_control_plane.Auth.Keys.Places.{root_kept, put_key-IsKeyTable}
use barq_control_plane.Base.{◌<>◌}
use barq_control_plane.Control.Checks.{version_matches}
use barq_control_plane.Control.Store.Laws.{version_of}
use barq_control_plane.Auth.Types.{Draw, CreateServiceKeyInput, CreatedServiceKey}
use barq_control_plane.Auth.Keys.{new_key, new_key_from, key_of}
use barq_control_plane.Auth.KeyChanges.Rotate.{free_of, new_key_from-ok}
use barq_control_plane.Auth.Keys.{validate_key_input, validate_scope, label_error}
use barq_control_plane.Auth.Normalize.{normalize_actions}
use barq_control_plane.Base.{ensure, is_blank, not, ◌||◌, ltb, len}
use barq_control_plane.Base.Text.{trim_space}
use barq_control_plane.Auth.KeyChanges.{plan_create_key, create_key}

module _ {V : Type 0} (env : AuthEnv V) where
  -- What a creation from `raw` at the instant `now` has stored if it answers `c`: one key, with
  -- the label and the scope asked for, trimmed, and the actions asked for, normalised.
  pub record StoredKey (now : Time) (raw : CreateServiceKeyInput) (c : CreatedServiceKey)
      (s t : Store V) : Type 0 where
    pub key : ServiceKey
    pub place : Record V
    pub stored : t ≡ record s { records = put_record place s.records }
    pub in_keys : place.collection ≡ api_key_collection
    pub under_digest : place.key ≡ key.digest
    pub reads : decode env.keys place ≡ ok key
    pub was_free : find_record api_key_collection key.digest s.records ≡ none
    pub labelled : key.label ≡ trim_space raw.label
    pub of_tenant : key.tenant ≡ trim_space raw.tenant
    pub of_database : key.database ≡ trim_space raw.database
    pub allowed : normalize_actions raw.actions ≡ ok key.actions
    pub scoped : validate_scope env s key.tenant key.database ≡ ok tt
    pub usable : key.enabled ≡ true
    pub created : (key.created_at ≡ now) × (key.updated_at ≡ now)
    pub answered : c.key ≡ key_view key
    pub hashed : key.digest ≡ env.digest c.secret

  -- What an accepted input is.
  validate_key_input-ok :
      (s : Store V) (raw : CreateServiceKeyInput) {input : CreateServiceKeyInput}
      → validate_key_input env s raw ≡ ok input
      → (input.label ≡ trim_space raw.label)
        × (input.tenant ≡ trim_space raw.tenant)
        × (input.database ≡ trim_space raw.database)
        × (normalize_actions raw.actions ≡ ok input.actions)
        × (validate_scope env s input.tenant input.database ≡ ok tt)
  unfolding validate_key_input
  validate_key_input-ok s raw h =
      let label = trim_space raw.label in
      bind_elim (ensure (not (is_blank label || ltb 120 (len label))) label_error) _ h λ u fine h₁.
        bind_elim (normalize_actions raw.actions) _ h₁ λ actions allowed h₂.
          bind_elim (validate_scope env s (trim_space raw.tenant) (trim_space raw.database)) _ h₂
            λ u scoped h₃. let e = ok-injective h₃ in rw (← e) (refl, refl, refl, allowed, scoped)

  plan_create_key-ok :
      (now : Time) (raw : CreateServiceKeyInput) (s : Store V) {w : Write V CreatedServiceKey}
      → plan_create_key env now raw s ≡ ok w
      → (input : CreateServiceKeyInput) × (d : Draw) × (validate_key_input env s raw ≡ ok input)
        × (w ≡ record {
          collection = api_key_collection;
          key = (key_of env now input d).digest;
          value = or_nil env.nil (encode env.keys (key_of env now input d));
          expected = some 0;
          answer = record {
            key = key_view (key_of env now input d);
            secret = "barq_sk_" <> d.secret;
          };
        })
  unfolding plan_create_key new_key
  plan_create_key-ok now raw s {w} h =
      bind_elim (validate_key_input env s raw) _ h λ input accepted h₁.
        bind_elim (new_key_from env 5 0 s input now) _ h₁ λ made drawn h₂.
          let (d, key, secret) = new_key_from-ok env 5 0 s input now drawn in
          (
            input,
            d,
            accepted,
            sym (ok-injective h₂)
                ∙ ap₂
                    (λ (k : ServiceKey) (x : String). record {
                      collection = api_key_collection;
                      key = k.digest;
                      value = or_nil env.nil (encode env.keys k);
                      expected = some 0;
                      answer = record { key = key_view k; secret = x };
                    })
                    key secret,
          )

  -- If the encoding is lawful, then a creation that succeeds has put one key under its digest,
  -- where nothing was stored before, and nothing else has changed. The key has the label and
  -- scope that were asked for, trimmed, which are a scope that keys may have, and the actions
  -- that were asked for, normalised. It is enabled, and is created and updated now. The answer
  -- shows this key, and the digest is that of the answer's secret.
  pub create_key-ok :
      (law : IsLawful env) (now : Time) (raw : CreateServiceKeyInput) (s : Store V)
      {c : CreatedServiceKey}
      → (create_key env now raw s).0 ≡ ok c
      → StoredKey now raw c s (create_key env now raw s).1
  unfolding create_key
  create_key-ok law now raw s h =
      let (w, planned, told, wrote) = run_write-ok env.valid s (plan_create_key env now raw s) h in
      let (input, d, accepted, written) = plan_create_key-ok now raw s planned in
      let done = wrote.is_put in
      let key = key_of env now input d in
      let answer = sym told ∙ ap (λ (w : Write V CreatedServiceKey). w.answer) written in
      let asked = validate_key_input-ok s raw accepted in
      let fine : env.valid (or_nil env.nil (encode env.keys key)) ≡ true =
        cc (done.well_formed, written) in
      let named = done.named in
      let free = find_record api_key_collection key.digest s.records in
      let wanted : version_matches (some 0) (version_of free) ≡ true = cc (done.matched, written) in
      record {
        key = key;
        place = wrote.stored_record;
        stored = done.stored;
        in_keys = cc (named, written);
        under_digest = cc (named, written);
        reads = cc (
          named,
          written,
          or_nil_read_back env.valid env.nil env.keys key law.keys_law law.nil_invalid fine,
        );
        was_free = free_of env free wanted;
        labelled = asked.0;
        of_tenant = asked.1;
        of_database = asked.2;
        allowed = asked.3;
        scoped = asked.4;
        usable = refl;
        created = (refl, refl);
        answered = ap (λ (a : CreatedServiceKey). a.key) answer;
        hashed = ap (λ (a : CreatedServiceKey). env.digest a.secret) (sym answer);
      }

  pub create_key-err :
      (now : Time) (raw : CreateServiceKeyInput) (s : Store V) {e : Error}
      → (create_key env now raw s).0 ≡ err e
      → (create_key env now raw s).1 ≡ s
  unfolding create_key
  create_key-err now raw s h = run_write-err env.valid s (plan_create_key env now raw s) h

  pub create_key-IsKeyTable :
      (law : IsLawful env) (now : Time) (raw : CreateServiceKeyInput) (s : Store V)
      → IsKeyTable env s
      → IsKeyTable env (create_key env now raw s).1
  create_key-IsKeyTable law now raw s tab = elim (Result-cases (create_key env now raw s).0) [
    | inr (e, failed) ↦ rw (create_key-err now raw s failed) tab
    | inl (c, done) ↦
        let u = create_key-ok law now raw s done in
        put_key-IsKeyTable env s _ u.place u.key u.stored u.in_keys u.under_digest u.reads tab
  ]

  -- A key is created under a digest that was free, so it replaces no other.
  pub create_key-HasRoot :
      (law : IsLawful env) (now : Time) (raw : CreateServiceKeyInput) (s : Store V)
      → HasRoot env s
      → HasRoot env (create_key env now raw s).1
  create_key-HasRoot law now raw s (r, key, found, reads, root) =
      elim (Result-cases (create_key env now raw s).0) [
        | inr (e, failed) ↦ rw (create_key-err now raw s failed) (r, key, found, reads, root)
        | inl (c, done) ↦
            let u = create_key-ok law now raw s done in
            root_kept env s _ u.place r key u.stored found reads root λ e. cc (
              found,
              u.was_free,
              ap (λ k. find_record api_key_collection k s.records) (e ∙ u.under_digest),
            )
      ]
