-- ===== src/Control/Store/Spared.antt =====
-- A collection, and operations of a store on other ones.
use barq_control_plane.Base.{
  ℕ, String, ◌≡◌, refl, ◌∙◌, ◌==◌, false, Bool, Option, List, Result, ok, err, arith, inl, inr, [],
  ◌∷◌, map,
}
use barq_control_plane.Base.Lists.{All}
use barq_control_plane.Base.Results.{Result-cases, Gives}
use barq_control_plane.Control.Types.{Record, Mutation}
use barq_control_plane.Control.Store.{
  Store, find_record, apply, put, delete, first, forget, put_of, delete_of,
}
use barq_control_plane.Control.Store.Frames.{apply_frame, targets}
use barq_control_plane.Control.Store.Laws.{apply-ok, apply-err, pending_of}
use barq_control_plane.Control.Store.Steps.{and_then, run_apply}
use barq_control_plane.Control.Store.Tables.{IsTable, perform_all-IsTable}

module _ {V : Type 0} where
  -- The records of a collection are the same.
  abbrev pub Untouched : String → Store V → Store V → Type 0
  Untouched c s t = (k : String) → find_record c k t.records ≡ find_record c k s.records

  -- So are they, and a well-formed table stays one.
  pub record Spared (c : String) (s t : Store V) : Type 0 where
    pub untouched : Untouched c s t
    pub table : IsTable s.records → IsTable t.records

  -- No mutation is in the collection.
  abbrev pub IsAway : String → List (Mutation V) → Type 0
  IsAway c ms = All (λ m. (m.collection == c) ≡ false) ms

  pub Spared-same : (c : String) (s : Store V) → Spared c s s
  Spared-same c s = record { untouched = λ k. refl; table = λ t. t }

  pub Spared-joined : (c : String) (s t u : Store V) → Spared c s t → Spared c t u → Spared c s u
  Spared-joined c s t u f g = record {
    untouched = λ k. g.untouched k ∙ f.untouched k;
    table = λ tab. g.table (f.table tab);
  }

  away_targets :
      (c k : String) (ms : List (Mutation V)) → IsAway c ms → All (λ m. targets c k m ≡ false) ms
  away_targets c k [] away = tt
  away_targets c k (m ∷ ms) (p, away) = (ground (arith, p), away_targets c k ms away)

  module _ (valid : V → Bool) (c : String) (s : Store V) where
    pub apply_spares : (ms : List (Mutation V)) → IsAway c ms → Spared c s (apply valid s ms).1
    apply_spares ms away = record {
      untouched = λ k. apply_frame valid s ms c k (away_targets c k ms away);
      table = λ tab. elim (Result-cases (apply valid s ms).0) [
        | inl (rs, e) ↦
            rw (apply-ok valid s ms e).stored
              (perform_all-IsTable (map (pending_of s.records) ms) s.records tab)
        | inr (e, f) ↦ rw (apply-err valid s ms f) tab
      ];
    }

    first_store : (x : Result (List (Record V)) × Store V) → Spared c s x.1 → Spared c s (first x).1
    first_store (err e, t) h = h
    first_store (ok [], t) h = h
    first_store (ok (r ∷ rs), t) h = h

    forget_store :
        (x : Result (List (Record V)) × Store V) → Spared c s x.1 → Spared c s (forget x).1
    forget_store (err e, t) h = h
    forget_store (ok rs, t) h = h

    pub put_spares :
        (a b : String) (v : V) (expected : Option ℕ)
        → (a == c) ≡ false
        → Spared c s (put valid s a b v expected).1
    unfolding put
    put_spares a b v expected away =
        first_store (apply valid s (put_of a b v expected ∷ []))
          (apply_spares (put_of a b v expected ∷ []) (away, tt))

    pub delete_spares :
        (nil : V) (a b : String) (expected : Option ℕ)
        → (a == c) ≡ false
        → Spared c s (delete valid nil s a b expected).1
    unfolding delete
    delete_spares nil a b expected away =
        forget_store (apply valid s (delete_of nil a b expected ∷ []))
          (apply_spares (delete_of nil a b expected ∷ []) (away, tt))

    pub then_spares :
        {A B : Type 0} (x : Result A × Store V) (answer : A → Result B)
        → Spared c s x.1
        → Spared c s (and_then x (λ a t. (answer a, t))).1
    then_spares (ok a, t) answer h = h
    then_spares (err e, t) answer h = h

    pub run_apply_spares :
        {A : Type 0} (plan : Result (List (Mutation V) × A))
        → Gives (λ planned. IsAway c planned.0) plan
        → Spared c s (run_apply valid s plan).1
    run_apply_spares (err e) away = Spared-same c s
    run_apply_spares (ok (ms, a)) away =
        then_spares (apply valid s ms) (λ rs. ok a) (apply_spares ms (away (ms, a) refl))
