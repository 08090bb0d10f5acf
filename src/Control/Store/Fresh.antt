-- ===== src/Control/Store/Fresh.antt =====
-- The mutations of a transaction that passes its checks act at different places: `seen` in
-- `BarqStore.Apply` of internal/control/barq.go.
use barq_control_plane.Base.{String, ◌≡◌, eq_iff, Bool, true, false, List, [], ◌∷◌, ok, ◌⊎◌, arith}
use barq_control_plane.Base.Lists.{All, contains}
use barq_control_plane.Base.Results.{>>=-eq-ok}
use barq_control_plane.Control.Types.{Record, Mutation, record_id, mutation_put, mutation_delete}
use barq_control_plane.Control.Checks.{Pending, check_all, check_mutation}
use barq_control_plane.Control.Store.{look_up}
use barq_control_plane.Control.Store.Frames.{targets}

module _ {V : Type 0} where
  -- No id occurs twice, nor one of those before.
  unfoldable pub Fresh : List String → List (Mutation V) → Type 0
  Fresh seen [] = Unit
  Fresh seen (m ∷ ms) =
      (contains seen (record_id m.collection m.key) ≡ false)
      × Fresh (record_id m.collection m.key ∷ seen) ms

  pub Fresh-apart :
      (seen : List String) (c k : String) (ms : List (Mutation V))
      → contains seen (record_id c k) ≡ true
      → Fresh seen ms
      → All (λ m. targets c k m ≡ false) ms
  unfolding Fresh contains
  Fresh-apart seen c k [] h fresh = tt
  Fresh-apart seen c k (m ∷ ms) h (one, more) = (
    ground (arith, h, one, eq_iff m.collection c, eq_iff m.key k),
    Fresh-apart (record_id m.collection m.key ∷ seen) c k ms (ground (arith, h)) more,
  )

  unfoldable pub IsKnown : Mutation V → Type 0
  IsKnown m = (m.op ≡ mutation_put) ⊎ (m.op ≡ mutation_delete)

  module _ (valid : V → Bool) where
    check_mutation-Fresh :
        (rs : List (Record V)) (seen : List String) (m : Mutation V) {p : Pending V (Unit {0})}
        → check_mutation valid (look_up rs) seen m ≡ ok p
        → (contains seen (record_id m.collection m.key) ≡ false) × IsKnown m
    unfolding check_mutation IsKnown
    check_mutation-Fresh rs seen m h =
        ground (arith, h, eq_iff m.op mutation_put, eq_iff m.op mutation_delete)

    pub check_all-Fresh :
        (rs : List (Record V)) (seen : List String) (ms : List (Mutation V))
        {ps : List (Pending V (Unit {0}))}
        → check_all valid (look_up rs) seen ms ≡ ok ps
        → Fresh seen ms × All IsKnown ms
    unfolding check_all Fresh
    check_all-Fresh rs seen [] h = (tt, tt)
    check_all-Fresh rs seen (m ∷ ms) h =
        let first = >>=-eq-ok (check_mutation valid (look_up rs) seen m) _ h in
        let later = record_id m.collection m.key ∷ seen in
        let rest = >>=-eq-ok (check_all valid (look_up rs) later ms) _ first.2 in
        let (fresh, known) = check_mutation-Fresh rs seen m first.1 in
        let (fresh_, known_) = check_all-Fresh rs later ms rest.1 in
        ((fresh, fresh_), (known, known_))
