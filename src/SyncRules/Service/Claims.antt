-- ===== src/SyncRules/Service/Claims.antt =====
-- A request ID cannot be used for a second, different request.
use barq_control_plane.Base.{
  ℕ, ◌≡◌, refl, ap₂, is_blank, false, not, some, Error, Result, ok, err, inl, inr, Bool-cases,
  is_code, conflict,
}
use barq_control_plane.Base.Results.{Result-cases}
use barq_control_plane.Control.Types.{Record, encode, decode}
use barq_control_plane.Control.Checks.{invalid}
use barq_control_plane.Control.Store.{Store, find_record, get, put}
use barq_control_plane.Control.Store.Calls.{get-ok, put-ok, put-err}
use barq_control_plane.Control.Store.Frames.{none_matched}
use barq_control_plane.Auth.Types.{Time}
use barq_control_plane.Auth.Tenants.{Scope}
use barq_control_plane.SyncRules.Types.{
  ApplyInput, PendingApply, Core, World, RulesEnv, pending_collection,
}
use barq_control_plane.SyncRules.Keys.{pending_key, same_pending}
use barq_control_plane.SyncRules.Service.{
  same_request, claimed, claim, apply_rules, new_pending, used_error,
}

module _ {V C : Type 0} (env : RulesEnv V) (core : Core V C) where
  -- Another request is stored under the key of this one.
  pub record IsTaken (s : Store V) (scope : Scope) (pending : PendingApply) : Type 0 where
    pub place : Record V
    pub stored : PendingApply
    pub found :
        find_record pending_collection (pending_key scope pending.request_id) s.records ≡ some place
    pub reads : decode env.pendings place ≡ ok stored
    pub differs : same_pending env stored pending ≡ false

  refused :
      (s : Store V) (scope : Scope) (pending : PendingApply) (taken : IsTaken s scope pending)
      (r : Result (Record V))
      → ((q : Record V) → r ≡ ok q → q ≡ taken.place)
      → (e : Error) × (same_request env core pending r ≡ err e)
  unfolding same_request
  refused s scope pending taken (err e) same = (e, refl)
  refused s scope pending taken (ok q) same = (
    used_error env core,
    rw (same q refl) (rw (taken.reads, same_request) (rw (taken.differs, same_request) refl)),
  )

  claimed_taken :
      (s : Store V) (scope : Scope) (pending : PendingApply)
      → IsTaken s scope pending
      → (e₀ : Error) → (e : Error) × (claimed env core scope pending (err e₀, s) ≡ (err e, s))
  claimed_taken s scope pending taken e₀ =
      let key = pending_key scope pending.request_id in
      elim (Bool-cases (not (is_code e₀ conflict))) [
        | inl p ↦ (e₀, rw p refl)
        | inr p ↦
            let (e, failed) =
              refused s scope pending taken (get s pending_collection key)
                (λ q was_read. cc (get-ok s pending_collection key was_read, taken.found)) in
            (e, rw p (rw failed refl))
      ]

  claim_taken :
      (s : Store V) (scope : Scope) (pending : PendingApply)
      → IsTaken s scope pending
      → (e : Error) × (claim env core scope pending s ≡ (err e, s))
  unfolding claim
  claim_taken s scope pending taken =
      let key = pending_key scope pending.request_id in
      elim (Result-cases (encode env.pendings pending)) [
        | inr (e, f) ↦ (e, rw (f, claim) refl)
        | inl (value, made) ↦
            let x = put env.valid s pending_collection key value (some 0) in
            elim (Result-cases x.0) [
              | inl (q, e) ↦
                  let p = put-ok env.valid s pending_collection key value (some 0) e in
                  cc (none_matched _ p.matched, taken.found)
              | inr (e₀, f) ↦
                  let same = put-err env.valid s pending_collection key value (some 0) f in
                  let (e, done) = claimed_taken s scope pending taken e₀ in
                  let pair : x ≡ (err e₀, s) = ap₂ (λ a b. (a, b)) f same in
                  (e, rw (made, claim) (rw pair done))
            ]
      ]

  -- If a different request is stored under the key of this one, then applying this one fails, and
  -- neither Core nor the control database is changed.
  pub apply_rules_refused :
      (clock : ℕ → Time) (scope : Scope) (input : ApplyInput) (w : World V C)
      → IsTaken w.store scope (new_pending (clock 0) scope input)
      → (e : Error) × (apply_rules env core clock scope input w ≡ (err e, w))
  unfolding apply_rules
  apply_rules_refused clock scope input w taken = elim (Bool-cases (is_blank input.request_id)) [
    | inl p ↦ (invalid "request ID is required", rw (p, apply_rules) refl)
    | inr p ↦
        let (e, failed) = claim_taken w.store scope (new_pending (clock 0) scope input) taken in
        (e, rw (p, apply_rules) (rw failed refl))
  ]
