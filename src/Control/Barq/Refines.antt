-- ===== src/Control/Barq/Refines.antt =====
-- The checks of a transaction, over the database and over the table that it stands for.
use barq_control_plane.Base.{
  ℕ, String, ◌≡◌, refl, ap, ◌==◌, Bool, false, not, ◌&&◌, Option, none, some, List, [], ◌∷◌, map,
  Error, Result, ok, err, arith, ◌⊎◌, inl, inr,
}
use barq_control_plane.Base.Lists.{All}
use barq_control_plane.Base.Results.{Result-cases, ok-injective, bind_elim}
use barq_control_plane.Control.Types.{Mutation, mutation_delete, record_id}
use barq_control_plane.Control.Checks.{Pending, check_mutation, check_all, found_object, is_some}

module _ {O : Type 0} where
  -- What the table knows of an object that was found: its version.
  abbrev pub shadow : Option (O × ℕ) → Option (Unit {0} × ℕ)
  shadow none = none
  shadow (some (o, v)) = some (tt, v)

  abbrev pub has_object : Option O → Option (Unit {0})
  has_object none = none
  has_object (some o) = some tt

  abbrev pub shade : {V : Type 0} → Pending V O → Pending V (Unit {0})
  shade p = record { mutation = p.mutation; object = has_object p.object; next = p.next }

module _ {O : Type 0} (look : String → String → Result (Option (O × ℕ))) where
  -- The object of a mutation that passed is the one that was found at its place.
  abbrev pub IsLooked : {V : Type 0} → Pending V O → Type 0
  IsLooked p =
      (o : Option (O × ℕ)) × (look p.mutation.collection p.mutation.key ≡ ok o)
      × (p.object ≡ found_object o)
      × ((p.mutation.op == mutation_delete && not (is_some p.object)) ≡ false)

  -- Reading the database has failed.
  pub record HasFailed (e : Error) : Type 0 where
    pub collection : String
    pub key : String
    pub failed : look collection key ≡ err e

module _ {V O : Type 0} (valid : V → Bool) (look : String → String → Result (Option (O × ℕ)))
    (table : String → String → Result (Option (Unit {0} × ℕ)))
    (agree : (c k : String) (o : Option (O × ℕ))
      → look c k ≡ ok o
      → table c k ≡ ok (shadow o)) where
  pub check_mutation-agrees :
      (seen : List String) (m : Mutation V) {p : Pending V O}
      → check_mutation valid look seen m ≡ ok p
      → (check_mutation valid table seen m ≡ ok (shade p)) × IsLooked look p
  unfolding check_mutation
  check_mutation-agrees seen m {p} h = elim (Result-cases (look m.collection m.key)) [
    | inr (e, f) ↦
        (ground (arith, f), (none, ground (arith, f), ground (arith, f), ground (arith, f)))
    | inl (none, e) ↦
        let here = agree m.collection m.key none e in
        (
          ground (arith, e, here),
          (none, ground (arith, e, here), ground (arith, e, here), ground (arith, e, here)),
        )
    | inl (some (o, v), e) ↦
        let here = agree m.collection m.key (some (o, v)) e in
        (
          ground (arith, e, here),
          (some (o, v), ground (arith, e, here), ground (arith, e, here), ground (arith, e, here)),
        )
  ]

  -- A check that fails does so on the table as well, unless reading has failed.
  pub check_mutation-fails :
      (seen : List String) (m : Mutation V) {e : Error}
      → check_mutation valid look seen m ≡ err e
      → (check_mutation valid table seen m ≡ err e) ⊎ (look m.collection m.key ≡ err e)
  unfolding check_mutation
  check_mutation-fails seen m h = elim (Result-cases (look m.collection m.key)) [
    | inr (e, f) ↦ ground (arith, f)
    | inl (none, e) ↦ ground (arith, e, agree m.collection m.key none e)
    | inl (some (o, v), e) ↦ ground (arith, e, agree m.collection m.key (some (o, v)) e)
  ]

  pub check_all-agrees :
      (seen : List String) (ms : List (Mutation V)) {ps : List (Pending V O)}
      → check_all valid look seen ms ≡ ok ps
      → (check_all valid table seen ms ≡ ok (map shade ps)) × All (IsLooked look) ps
  unfolding check_all
  check_all-agrees seen [] h = rw (← ok-injective h) (refl, tt)
  check_all-agrees seen (m ∷ ms) h = bind_elim (check_mutation valid look seen m) _ h λ p first h₁.
      let later = record_id m.collection m.key ∷ seen in
      bind_elim (check_all valid look later ms) _ h₁ λ rest others h₂.
        let (one, looked) = check_mutation-agrees seen m first in
        let (more, all_looked) = check_all-agrees later ms others in
        rw (← ok-injective h₂) (rw one (rw more refl), (looked, all_looked))

  pub check_all-fails :
      (seen : List String) (ms : List (Mutation V)) {e : Error}
      → check_all valid look seen ms ≡ err e
      → (check_all valid table seen ms ≡ err e) ⊎ HasFailed look e
  unfolding check_all
  check_all-fails seen [] h = cc
  check_all-fails seen (m ∷ ms) {e} h = elim (Result-cases (check_mutation valid look seen m)) [
    | inr (e', f) ↦
        let same : e' ≡ e = cc (rw f at h) in
        elim (check_mutation-fails seen m f) [
          | inl failed ↦ inl (rw failed (ap err same))
          | inr broken ↦
              inr (rw (← same) (record { collection = m.collection; key = m.key; failed = broken }))
        ]
    | inl (p, first) ↦
        let later = record_id m.collection m.key ∷ seen in
        let (one, looked) = check_mutation-agrees seen m first in
        elim (Result-cases (check_all valid look later ms)) [
          | inl (ps, others) ↦ cc (rw (first, others) at h)
          | inr (e', f) ↦
              let same : e' ≡ e = cc (rw (first, f) at h) in
              elim (check_all-fails later ms f) [
                | inl failed ↦ inl (rw one (rw failed (ap err same)))
                | inr broken ↦ inr (rw (← same) broken)
              ]
        ]
  ]
