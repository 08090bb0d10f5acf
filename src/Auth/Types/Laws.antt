-- ===== src/Auth/Types/Laws.antt =====
-- What an operation that ends in one write has done, and what was written can be read back.
use barq_control_plane.Base.{◌≡◌, refl, ◌∙◌, Bool, true, false, Error, Result, ok, err, inl, inr}
use barq_control_plane.Base.Results.{Result-cases}
use barq_control_plane.Control.Types.{Record, Codec, IsCodec, encode}
use barq_control_plane.Control.Store.{Store, put}
use barq_control_plane.Control.Store.Calls.{IsPut, put-ok, put-err}
use barq_control_plane.Auth.Types.{Write, run_write, answer_with, forget_answer, or_nil}

module _ {V A : Type 0} where
  -- The write of an operation that succeeded.
  pub record Wrote (valid : V → Bool) (s : Store V) (w : Write V A) (t : Store V) : Type 0 where
    pub stored_record : Record V
    pub is_put : IsPut valid s w.collection w.key w.value w.expected stored_record t

  pub answer_with-ok :
      {R : Type 0} (a : A) (x : Result R × Store V) {b : A}
      → (answer_with a x).0 ≡ ok b
      → (r : R) × (x.0 ≡ ok r) × (a ≡ b) × ((answer_with a x).1 ≡ x.1)
  answer_with-ok a (ok r, s) h = (r, refl, cc, refl)
  answer_with-ok a (err e, s) h = cc

  pub answer_with-err :
      {R : Type 0} (a : A) (x : Result R × Store V) {e : Error}
      → (answer_with a x).0 ≡ err e
      → (x.0 ≡ err e) × ((answer_with a x).1 ≡ x.1)
  answer_with-err a (ok r, s) h = cc
  answer_with-err a (err e, s) h = (cc, refl)

  pub run_write-ok :
      (valid : V → Bool) (s : Store V) (p : Result (Write V A)) {a : A}
      → (run_write valid s p).0 ≡ ok a
      → (w : Write V A) × (p ≡ ok w) × (w.answer ≡ a) × Wrote valid s w (run_write valid s p).1
  run_write-ok valid s (err e) h = cc
  run_write-ok valid s (ok w) h =
      let done = answer_with-ok w.answer (put valid s w.collection w.key w.value w.expected) h in
      (
        w,
        refl,
        done.2,
        record {
          stored_record = done.0;
          is_put = rw done.3 (put-ok valid s w.collection w.key w.value w.expected done.1);
        },
      )

  -- An operation that fails leaves the store as it was.
  pub run_write-err :
      (valid : V → Bool) (s : Store V) (p : Result (Write V A)) {e : Error}
      → (run_write valid s p).0 ≡ err e
      → (run_write valid s p).1 ≡ s
  run_write-err valid s (err e) h = refl
  run_write-err valid s (ok w) h =
      let done = answer_with-err w.answer (put valid s w.collection w.key w.value w.expected) h in
      done.1 ∙ put-err valid s w.collection w.key w.value w.expected done.0

pub forget_answer_store : {V A : Type 0} (x : Result A × Store V) → (forget_answer x).1 ≡ x.1
forget_answer_store (ok a, s) = refl
forget_answer_store (err e, s) = refl

-- A value that a store accepted was encoded, so it is read back.
pub or_nil_read_back :
    {V A : Type 0} (valid : V → Bool) (nil : V) (c : Codec V A) (a : A)
    → IsCodec valid c
    → valid nil ≡ false
    → valid (or_nil nil (encode c a)) ≡ true
    → c.unmarshal (or_nil nil (encode c a)) ≡ ok a
or_nil_read_back valid nil c a law empty h = elim (Result-cases (encode c a)) [
  | inl (v, e) ↦ rw e (law.unmarshal-marshal a v e)
  | inr (e, failed) ↦ cc (rw failed at h, empty)
]
