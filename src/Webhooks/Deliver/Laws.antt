-- ===== src/Webhooks/Deliver/Laws.antt =====
-- The life of a delivery: how often it is tried, and when.
use barq_control_plane.Base.{
  ℕ, zero, suc, ◌+◌, ◌*◌, ◌^◌, ◌≤◌, ◌<◌, String, ◌==◌, eq_iff, ◌≡◌, ◌≢◌, refl, sym, ◌∙◌, ◌⊎◌, inl,
  inr, true, false, leb, arith, Bool-cases,
}
use barq_control_plane.Auth.Types.{Time}
use barq_control_plane.Webhooks.Types.{Delivery, Reply}
use barq_control_plane.Webhooks.Deliver.{
  backoff_seconds, backoff, second, deliver, is_success, replayed, max_attempts, is_due,
}

-- The wait after attempt n is 2^n seconds if n is at most 11, and an hour if n is 12 or more,
-- and the wait after the next attempt is not shorter.
pub backoff_lem :
    (n : ℕ)
    → ((n ≤ 11) → backoff n ≡ 2 ^ n * second)
      × ((12 ≤ n) → backoff n ≡ 3600 * second)
      × (backoff n ≤ backoff (suc n))
unfolding backoff backoff_seconds
backoff_lem zero = (λ _. refl, λ h. absurd (omega arith), omega arith)
backoff_lem (suc zero) = (λ _. refl, λ h. absurd (omega arith), omega arith)
backoff_lem (suc (suc zero)) = (λ _. refl, λ h. absurd (omega arith), omega arith)
backoff_lem (suc (suc (suc zero))) = (λ _. refl, λ h. absurd (omega arith), omega arith)
backoff_lem (suc (suc (suc (suc zero)))) = (λ _. refl, λ h. absurd (omega arith), omega arith)
backoff_lem (suc (suc (suc (suc (suc zero))))) = (λ _. refl, λ h. absurd (omega arith), omega arith)
backoff_lem (suc (suc (suc (suc (suc (suc zero)))))) =
    (λ _. refl, λ h. absurd (omega arith), omega arith)
backoff_lem (suc (suc (suc (suc (suc (suc (suc zero))))))) =
    (λ _. refl, λ h. absurd (omega arith), omega arith)
backoff_lem (suc (suc (suc (suc (suc (suc (suc (suc zero)))))))) =
    (λ _. refl, λ h. absurd (omega arith), omega arith)
backoff_lem (suc (suc (suc (suc (suc (suc (suc (suc (suc zero))))))))) =
    (λ _. refl, λ h. absurd (omega arith), omega arith)
backoff_lem (suc (suc (suc (suc (suc (suc (suc (suc (suc (suc zero)))))))))) =
    (λ _. refl, λ h. absurd (omega arith), omega arith)
backoff_lem (suc (suc (suc (suc (suc (suc (suc (suc (suc (suc (suc zero))))))))))) =
    (λ _. refl, λ h. absurd (omega arith), omega arith)
backoff_lem (suc (suc (suc (suc (suc (suc (suc (suc (suc (suc (suc (suc n)))))))))))) =
    (λ h. absurd (omega arith), λ _. ground arith, ground arith)

apart_text : (s a b : String) → s ≡ a → (a == b) ≡ false → s ≢ b
apart_text s a b h p e = cc ((eq_iff a b).1 (sym h ∙ e), p)

module _ {V : Type 0} where
  -- A delivery that can still be sent has been tried less than eight times, and no delivery more.
  pub record IsDelivery (d : Delivery V) : Type 0 where
    pub known :
        (d.status ≡ "pending")
        ⊎ (d.status ≡ "retry")
        ⊎ (d.status ≡ "completed")
        ⊎ (d.status ≡ "dead")
    pub bounded : d.attempts ≤ max_attempts
    pub unspent : d.status ≡ "pending" → d.attempts < max_attempts
    pub unspent_retry : d.status ≡ "retry" → d.attempts < max_attempts

  pub is_due-open :
      (now : Time) (d : Delivery V)
      → is_due now d ≡ true
      → (d.status ≡ "pending") ⊎ (d.status ≡ "retry")
  is_due-open now d h = elim (Bool-cases (d.status == "pending")) [
    | inl p ↦ inl ((eq_iff d.status "pending").0 p)
    | inr p ↦ inr ((eq_iff d.status "retry").0 (ground arith))
  ]

  -- The three ends of an attempt.
  pub deliver_cases :
      (now : Time) (reply : Reply) (d : Delivery V)
      → ((deliver now reply d).attempts ≡ suc d.attempts)
        × (((is_success reply ≡ true) × ((deliver now reply d).status ≡ "completed"))
            ⊎ ((is_success reply ≡ false)
                × (max_attempts ≤ suc d.attempts)
                × ((deliver now reply d).status ≡ "dead"))
            ⊎ ((is_success reply ≡ false)
                × (suc d.attempts < max_attempts)
                × ((deliver now reply d).status ≡ "retry")
                × ((deliver now reply d).next_attempt_at ≡ now + backoff (suc d.attempts))))
  unfolding deliver
  deliver_cases now reply d = elim (Bool-cases (is_success reply)) [
    | inl p ↦ rw p (refl, inl (refl, refl))
    | inr p ↦ elim (Bool-cases (leb max_attempts (suc d.attempts))) [
      | inl q ↦ rw (p, q) (refl, inr (inl (refl, ground arith, refl)))
      | inr q ↦ rw (p, q) (refl, inr (inr (refl, ground arith, refl, refl)))
    ]
  ]

  -- An attempt at a delivery that is due.
  pub deliver-IsDelivery :
      (at now : Time) (reply : Reply) (d : Delivery V)
      → IsDelivery d
      → is_due at d ≡ true
      → IsDelivery (deliver now reply d)
  deliver-IsDelivery at now reply d inv due =
      let law = deliver_cases now reply d in
      let open_ = is_due-open at d due in
      let small : d.attempts < max_attempts = elim open_ [
        | inl p ↦ inv.unspent p
        | inr p ↦ inv.unspent_retry p
      ] in
      elim law.1 [
        | inl (_, done) ↦ record {
          known = inr (inr (inl done));
          bounded = omega (arith, law.0, small);
          unspent = λ e. absurd (apart_text _ "completed" "pending" done refl e);
          unspent_retry = λ e. absurd (apart_text _ "completed" "retry" done refl e);
        }
        | inr (inl (_, _, done)) ↦ record {
          known = inr (inr (inr done));
          bounded = omega (arith, law.0, small);
          unspent = λ e. absurd (apart_text _ "dead" "pending" done refl e);
          unspent_retry = λ e. absurd (apart_text _ "dead" "retry" done refl e);
        }
        | inr (inr (_, less, done, _)) ↦ record {
          known = inr (inl done);
          bounded = omega (arith, law.0, small);
          unspent = λ e. absurd (apart_text _ "retry" "pending" done refl e);
          unspent_retry = λ e. omega (arith, law.0, less);
        }
      ]

  -- The steps that a delivery takes while it is stored.
  pub data Step : Delivery V → Delivery V → Type 0 where
    attempted :
        {d : Delivery V} (now : Time) (at : Time) (reply : Reply)
        → is_due now d ≡ true
        → Step d (deliver at reply d)
    replay : {d : Delivery V} (now : Time) → d.status ≡ "dead" → Step d (replayed now d)

  pub data Steps (d : Delivery V) : Delivery V → Type 0 where
    created : Steps d d
    next : {a b : Delivery V} → Steps d a → Step a b → Steps d b

  replayed-IsDelivery : (now : Time) (d : Delivery V) → IsDelivery (replayed now d)
  unfolding replayed
  replayed-IsDelivery now d = record {
    known = inl refl;
    bounded = omega arith;
    unspent = λ _. omega arith;
    unspent_retry = λ _. omega arith;
  }

  -- If a delivery has one of the four statuses and at most eight attempts, and less than eight
  -- while it is pending or waits for a retry, then so it is after any sequence of attempts at
  -- it when it is due, and of replays when it is dead.
  pub Steps-IsDelivery : {d e : Delivery V} → IsDelivery d → Steps d e → IsDelivery e
  Steps-IsDelivery start created = start
  Steps-IsDelivery start (next steps (attempted now at reply due)) =
      deliver-IsDelivery now at reply _ (Steps-IsDelivery start steps) due
  Steps-IsDelivery start (next steps (replay now dead)) = replayed-IsDelivery now _
