-- ===== src/Control/Store/Tables.antt =====
-- Tables that hold a record once, and what their lists hold.
use barq_control_plane.Base.{
  String, ◌≡◌, refl, ◌==◌, eq_iff, Bool, true, none, some, List, [], ◌∷◌, ok, arith, ◌⊎◌, inl, inr,
  Bool-cases,
}
use barq_control_plane.Base.Lists.{In}
use barq_control_plane.Base.Sorting.{sort_by, insert_by}
use barq_control_plane.Base.Text.{starts_with}
use barq_control_plane.Control.Types.{Record, mutation_delete}
use barq_control_plane.Control.Checks.{Pending}
use barq_control_plane.Control.Store.{
  Store, find_record, list, list_of, listed, key_leb, put_record, delete_record, perform,
  perform_all,
}
use barq_control_plane.Control.Store.Laws.{or_fault-ok, find-put_record, find-delete_record}

module _ {A : Type 0} (le : A → A → Bool) where
  In-insert_by : (x a : A) (xs : List A) → In a (insert_by le x xs) → (x ≡ a) ⊎ In a xs
  unfolding insert_by
  In-insert_by x a [] m = m
  In-insert_by x a (y ∷ ys) m = ground (arith, In-insert_by x a ys)

  insert_by-In : (x a : A) (xs : List A) → (x ≡ a) ⊎ In a xs → In a (insert_by le x xs)
  unfolding insert_by
  insert_by-In x a [] m = m
  insert_by-In x a (y ∷ ys) m = ground (arith, insert_by-In x a ys)

  pub In-sort_by : (a : A) (xs : List A) → In a (sort_by le xs) → In a xs
  unfolding sort_by
  In-sort_by a [] m = m
  In-sort_by a (x ∷ xs) m = elim (In-insert_by x a (sort_by le xs) m) [
    | inl e ↦ inl e
    | inr later ↦ inr (In-sort_by a xs later)
  ]

  pub sort_by-In : (a : A) (xs : List A) → In a xs → In a (sort_by le xs)
  unfolding sort_by
  sort_by-In a [] m = m
  sort_by-In a (x ∷ xs) (inl e) = insert_by-In x a (sort_by le xs) (inl e)
  sort_by-In a (x ∷ xs) (inr m) = insert_by-In x a (sort_by le xs) (inr (sort_by-In a xs m))

pub starts_with_nothing : (s : String) → starts_with s "" ≡ true
unfolding starts_with
starts_with_nothing s = refl

module _ {V : Type 0} where
  -- No two records have the same collection and key.
  abbrev pub IsTable : List (Record V) → Type 0
  IsTable [] = Unit
  IsTable (r ∷ rs) = (find_record r.collection r.key rs ≡ none) × IsTable rs

  pub find_record-In :
      (c k : String) (rs : List (Record V)) {r : Record V} → find_record c k rs ≡ some r → In r rs
  unfolding find_record
  find_record-In c k [] h = cc
  find_record-In c k (q ∷ rs) {r} h = ground (arith, find_record-In c k rs {r = r})

  pub In-find_record :
      (r : Record V) (rs : List (Record V))
      → IsTable rs
      → In r rs
      → find_record r.collection r.key rs ≡ some r
  unfolding find_record
  In-find_record r [] t m = absurd m
  In-find_record r (q ∷ rs) (fresh, t) m =
      ground (arith, In-find_record r rs t, eq_iff q.collection r.collection, eq_iff q.key r.key)

  pub put_record-IsTable :
      (r : Record V) (rs : List (Record V)) → IsTable rs → IsTable (put_record r rs)
  unfolding put_record find_record
  put_record-IsTable r [] t = (refl, tt)
  put_record-IsTable r (q ∷ rs) (fresh, t) = ground (
    arith,
    put_record-IsTable r rs t,
    find-put_record r rs q.collection q.key,
    eq_iff q.collection r.collection,
    eq_iff q.key r.key,
    eq_iff r.collection q.collection,
    eq_iff r.key q.key,
  )

  pub delete_record-IsTable :
      (c k : String) (rs : List (Record V)) → IsTable rs → IsTable (delete_record c k rs)
  unfolding delete_record
  delete_record-IsTable c k [] t = tt
  delete_record-IsTable c k (q ∷ rs) (fresh, t) =
      ground (arith, delete_record-IsTable c k rs t, find-delete_record c k rs q.collection q.key)

  pub In-listed :
      (c prefix : String) (r : Record V) (rs : List (Record V))
      → In r (listed c prefix rs)
      → In r rs × (r.collection ≡ c)
  unfolding listed
  In-listed c prefix r [] m = absurd m
  In-listed c prefix r (q ∷ rs) m = ground (arith, In-listed c prefix r rs, eq_iff q.collection c)

  pub listed-In :
      (c : String) (r : Record V) (rs : List (Record V))
      → In r rs
      → r.collection ≡ c
      → In r (listed c "" rs)
  unfolding listed
  listed-In c r [] m e = m
  listed-In c r (q ∷ rs) m e =
      ground (arith, listed-In c r rs, eq_iff q.collection c, starts_with_nothing q.key)

  pub perform_all-IsTable :
      {O : Type 0} (ps : List (Pending V O)) (rs : List (Record V))
      → IsTable rs
      → IsTable (perform_all ps rs)
  unfolding perform_all perform
  perform_all-IsTable [] rs t = t
  perform_all-IsTable (p ∷ ps) rs t =
      perform_all-IsTable ps _ (elim (Bool-cases (p.mutation.op == mutation_delete)) [
        | inl yes_ ↦ rw yes_ (delete_record-IsTable p.mutation.collection p.mutation.key rs t)
        | inr no_ ↦ rw no_ (put_record-IsTable _ rs t)
      ])

  -- What `list` returns: records of the collection, and all of them for the empty prefix.
  pub list-ok :
      (s : Store V) (c prefix : String) {rs : List (Record V)}
      → list s c prefix ≡ ok rs
      → rs ≡ sort_by key_leb (listed c prefix s.records)
  unfolding list
  list-ok s c prefix h = ground (arith, or_fault-ok (s.fault (list_of c)))

  pub In-list :
      (s : Store V) (c prefix : String) (r : Record V) {rs : List (Record V)}
      → list s c prefix ≡ ok rs
      → In r rs
      → In r s.records × (r.collection ≡ c)
  In-list s c prefix r h m =
      In-listed c prefix r s.records
        (In-sort_by key_leb r (listed c prefix s.records) (rw (list-ok s c prefix h) at m))

  pub list-In :
      (s : Store V) (c : String) (r : Record V) {rs : List (Record V)}
      → list s c "" ≡ ok rs
      → In r s.records
      → r.collection ≡ c
      → In r rs
  list-In s c r h m e = rw (list-ok s c "" h) (sort_by-In key_leb r _ (listed-In c r s.records m e))
