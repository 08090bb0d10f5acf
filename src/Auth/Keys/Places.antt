-- ===== src/Auth/Keys/Places.antt =====
-- What putting one record among the keys does to the table and to its root keys.
use barq_control_plane.Base.{◌≡◌, ◌≢◌, sym, ap, ◌∙◌, eq_iff, true, some, ok, arith}
use barq_control_plane.Base.Results.{ok-injective}
use barq_control_plane.Control.Types.{Record, decode}
use barq_control_plane.Control.Store.{Store, find_record, put_record}
use barq_control_plane.Control.Store.Laws.{find-put_record}
use barq_control_plane.Control.Store.Tables.{put_record-IsTable}
use barq_control_plane.Auth.Types.{ServiceKey, AuthEnv, api_key_collection}
use barq_control_plane.Auth.Keys.{is_root_key}
use barq_control_plane.Auth.Keys.Laws.{IsKeyTable, HasRoot}

module _ {V : Type 0} (env : AuthEnv V) where
  pub found_kept :
      (s : Store V) (place r : Record V)
      → find_record api_key_collection r.key s.records ≡ some r
      → r.key ≢ place.key
      → find_record api_key_collection r.key (put_record place s.records) ≡ some r
  found_kept s place r found apart =
      let law = find-put_record place s.records api_key_collection r.key in
      ground (arith, law, eq_iff place.key r.key, found)

  -- A stored root key elsewhere than where a record is put stays a root key.
  pub root_kept :
      (s t : Store V) (place r : Record V) (key : ServiceKey)
      → t ≡ record s { records = put_record place s.records }
      → find_record api_key_collection r.key s.records ≡ some r
      → decode env.keys r ≡ ok key
      → is_root_key key ≡ true
      → r.key ≢ place.key
      → HasRoot env t
  root_kept s t place r key stored found reads root apart =
      let law = find-put_record place s.records api_key_collection r.key in
      (r, key, rw stored (ground (arith, law, eq_iff place.key r.key, found)), reads, root)

  -- A root key that is put is a root key of the new table.
  pub root_put :
      (s t : Store V) (place : Record V) (key : ServiceKey)
      → t ≡ record s { records = put_record place s.records }
      → place.collection ≡ api_key_collection
      → decode env.keys place ≡ ok key
      → is_root_key key ≡ true
      → HasRoot env t
  root_put s t place key stored in_keys reads root =
      let law = find-put_record place s.records api_key_collection place.key in
      (
        place,
        key,
        rw stored (
            ground (
              arith,
              law,
              in_keys,
              eq_iff place.collection api_key_collection,
              eq_iff place.key place.key,
            )),
        reads,
        root,
      )

  -- Where one record is found under a key, one API key is read.
  pub same_key :
      (s : Store V) (r q : Record V) (a b : ServiceKey)
      → find_record api_key_collection r.key s.records ≡ some r
      → find_record api_key_collection q.key s.records ≡ some q
      → decode env.keys r ≡ ok a
      → decode env.keys q ≡ ok b
      → r.key ≡ q.key
      → a ≡ b
  same_key s r q a b fr fq da db e =
      let same : r ≡ q = cc (fr, fq, ap (λ k. find_record api_key_collection k s.records) e) in
      ok-injective (sym da ∙ ap (decode env.keys) same ∙ db)

  -- A key that is put under its digest leaves the table well formed.
  pub put_key-IsKeyTable :
      (s t : Store V) (place : Record V) (key : ServiceKey)
      → t ≡ record s { records = put_record place s.records }
      → place.collection ≡ api_key_collection
      → place.key ≡ key.digest
      → decode env.keys place ≡ ok key
      → IsKeyTable env s
      → IsKeyTable env t
  put_key-IsKeyTable s t place key stored in_keys under reads tab = rw stored (record {
    table = put_record-IsTable place s.records tab.table;
    by_digest = λ r k found e. ground (
      arith,
      find-put_record place s.records api_key_collection r.key,
      found,
      in_keys,
      under,
      reads,
      e,
      eq_iff place.collection api_key_collection,
      eq_iff place.key r.key,
      tab.by_digest r k,
    );
  })
