-- ===== src/Webhooks/Dispatch/Subscribers.antt =====
-- Which webhooks want an event: `matches` of internal/webhooks/service.go.
use barq_control_plane.Base.{String, ◌≡◌, ◌↔◌, ◌⊎◌, inl, inr, true, eq_iff, List, [], ◌∷◌, arith}
use barq_control_plane.Base.Lists.{In, contains}
use barq_control_plane.DataPlane.{ChangeEvent}
use barq_control_plane.Webhooks.Types.{Webhook}
use barq_control_plane.Webhooks.Normalize.{matches_hook}
use barq_control_plane.Webhooks.Normalize.Laws.{matches_hook_iff}

contains_iff : (xs : List String) (v : String) → (contains xs v ≡ true) ↔ In v xs
unfolding contains
contains_iff [] v = (λ h. cc, λ h. absurd h)
contains_iff (x ∷ xs) v = ground (arith, contains_iff xs v, eq_iff x v)

module _ {V : Type 0} (event : ChangeEvent V) where
  -- The webhook is enabled, has the event's scope, lists the event's type or `*`, and lists the
  -- event's object type, or none.
  pub record Subscribes (hook : Webhook V) : Type 0 where
    pub enabled : hook.enabled ≡ true
    pub in_scope : hook.scope ≡ event.scope
    pub wants : In "*" hook.events ⊎ In event.event_type hook.events
    pub of_type : (hook.object_types ≡ []) ⊎ In event.object_type hook.object_types

  pub matches_hook-Subscribes :
      (hook : Webhook V) → (matches_hook hook event ≡ true) ↔ Subscribes hook
  matches_hook-Subscribes hook =
      let law = matches_hook_iff hook event in
      let star = contains_iff hook.events "*" in
      let kind = contains_iff hook.events event.event_type in
      let object = contains_iff hook.object_types event.object_type in
      (
        λ h.
            let (on, scoped, wanted, typed) = law.0 h in
            record {
              enabled = on;
              in_scope = scoped;
              wants = elim wanted [ inl a ↦ inl (star.0 a) | inr a ↦ inr (kind.0 a) ];
              of_type = elim typed [ inl a ↦ inl a | inr a ↦ inr (object.0 a) ];
            },
        λ u. law.1 (
          u.enabled,
          u.in_scope,
          elim u.wants [ inl a ↦ inl (star.1 a) | inr a ↦ inr (kind.1 a) ],
          elim u.of_type [ inl a ↦ inl a | inr a ↦ inr (object.1 a) ],
        ),
      )
