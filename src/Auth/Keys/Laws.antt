-- ===== src/Auth/Keys/Laws.antt =====
-- What reading the key collection tells, in a table of keys that is well formed.
use barq_control_plane.Base.Results.{>>=-eq-ok, Result-cases}
use barq_control_plane.Base.{
  String, ◌≡◌, ◌≢◌, refl, ◌==◌, eq_iff, true, ◌&&◌, not, some, List, [], ◌∷◌, ok, arith, inl, inr,
  Bool-cases,
}
use barq_control_plane.Base.Lists.{In}
use barq_control_plane.Base.Sorting.{sort_by}
use barq_control_plane.Control.Types.{Record, decode}
use barq_control_plane.Control.Store.{Store, find_record, list}
use barq_control_plane.Control.Store.Tables.{IsTable, In-find_record, In-list, In-sort_by}
use barq_control_plane.Auth.Types.{ServiceKey, AuthEnv, api_key_collection}
use barq_control_plane.Auth.Keys.{
  is_root_key, decode_keys, key_id_leb, list_keys, scan_keys, read_key, has_other_root,
  ensure_another_root,
}

module _ {V : Type 0} (env : AuthEnv V) where
  -- Records occur once, and an API key is stored under its digest.
  pub record IsKeyTable (s : Store V) : Type 0 where
    pub table : IsTable s.records
    pub by_digest :
        (r : Record V) (key : ServiceKey)
        → find_record api_key_collection r.key s.records ≡ some r
        → decode env.keys r ≡ ok key
        → key.digest ≡ r.key

  -- Some stored key is an enabled global admin key.
  abbrev pub HasRoot : Store V → Type 0
  HasRoot s =
      (r : Record V) × (key : ServiceKey) × (find_record api_key_collection r.key s.records
        ≡ some r)
      × (decode env.keys r ≡ ok key)
      × (is_root_key key ≡ true)

  scan_keys-ok :
      (id : String) (rs : List (Record V)) {key : ServiceKey} {r : Record V}
      → scan_keys env id rs ≡ ok (key, r)
      → In r rs × (decode env.keys r ≡ ok key) × (key.id ≡ id)
  unfolding scan_keys
  scan_keys-ok id [] h = cc
  scan_keys-ok id (q ∷ rs) {key} {r} h =
      ground (arith, scan_keys-ok id rs {key = key} {r = r}, eq_iff key.id id)

  -- The key that `getKey` finds is stored, under the names of its record.
  pub read_key-ok :
      (s : Store V) (id : String) {key : ServiceKey} {r : Record V}
      → IsTable s.records
      → read_key env s id ≡ ok (key, r)
      → (find_record api_key_collection r.key s.records ≡ some r)
        × (decode env.keys r ≡ ok key)
        × (key.id ≡ id)
  unfolding read_key
  read_key-ok s id {key} {r} t h =
      let found = >>=-eq-ok (list s api_key_collection "") _ h in
      let scan = scan_keys-ok id found.0 found.2 in
      let place = In-list s api_key_collection "" r found.1 scan.0 in
      (cc (In-find_record r s.records t place.0, place.1), scan.1, scan.2)

  In-cons :
      (q : Record V) (rs : List (Record V)) (key k : ServiceKey) (keys : List ServiceKey)
      → decode env.keys q ≡ ok k
      → (In key keys → (r : Record V) × In r rs × (decode env.keys r ≡ ok key))
      → In key (k ∷ keys)
      → (r : Record V) × In r (q ∷ rs) × (decode env.keys r ≡ ok key)
  In-cons q rs key k keys e later (inl same) = (q, inl refl, cc)
  In-cons q rs key k keys e later (inr m) = let found = later m in (found.0, inr found.1, found.2)

  decode_keys-In :
      (rs : List (Record V)) (key : ServiceKey) {keys : List ServiceKey}
      → decode_keys env rs ≡ ok keys
      → In key keys
      → (r : Record V) × In r rs × (decode env.keys r ≡ ok key)
  unfolding decode_keys
  decode_keys-In [] key {keys} h m = let e : keys ≡ [] = cc in absurd (rw e at m)
  decode_keys-In (q ∷ rs) key {keys} h m = elim (Result-cases (decode env.keys q)) [
    | inl (k, e) ↦
        let more = >>=-eq-ok (decode_keys env rs) _ (rw (e, decode_keys) at h) in
        let split : keys ≡ k ∷ more.0 = cc (more.2) in
        In-cons q rs key k more.0 e (decode_keys-In rs key more.1) (rw split at m)
    | inr (e, failed) ↦ cc (rw (failed, decode_keys) at h)
  ]

  has_other_root-In :
      (id : String) (keys : List ServiceKey)
      → has_other_root id keys ≡ true
      → (key : ServiceKey) × In key keys × (key.id ≢ id) × (is_root_key key ≡ true)
  unfolding has_other_root
  has_other_root-In id [] h = cc
  has_other_root-In id (k ∷ keys) h = elim (Bool-cases (not (k.id == id) && is_root_key k)) [
    | inl here ↦ (k, inl refl, ground (arith, eq_iff k.id id), ground arith)
    | inr there ↦
        let found = has_other_root-In id keys (rw (there, has_other_root) at h) in
        (found.0, inr found.1, found.2, found.3)
  ]

  -- If `ensureAnotherRoot` agrees, a root key with another id is stored.
  pub ensure_another_root-ok :
      (s : Store V) (id : String) {u : Unit {0}}
      → IsTable s.records
      → ensure_another_root env s id ≡ ok u
      → (r : Record V) × (key : ServiceKey) × (find_record api_key_collection r.key s.records
          ≡ some r)
        × (decode env.keys r ≡ ok key)
        × (key.id ≢ id)
        × (is_root_key key ≡ true)
  unfolding ensure_another_root list_keys
  ensure_another_root-ok s id t h =
      let keys = >>=-eq-ok (list_keys env s) _ h in
      let rs = >>=-eq-ok (list s api_key_collection "") _ keys.1 in
      let all = >>=-eq-ok (decode_keys env rs.0) _ rs.2 in
      let same : keys.0 ≡ sort_by key_id_leb all.0 = cc (all.2) in
      let other = has_other_root-In id keys.0 (ground (arith, keys.2)) in
      let key = other.0 in
      let stored = In-sort_by key_id_leb key all.0 (rw same at other.1) in
      let found = decode_keys-In rs.0 key all.1 stored in
      let place = In-list s api_key_collection "" found.0 rs.1 found.1 in
      (
        found.0,
        key,
        cc (In-find_record found.0 s.records t place.0, place.1),
        found.2,
        other.2,
        other.3,
      )
