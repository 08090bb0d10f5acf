-- ===== src/Webhooks/Normalize.antt =====
-- The limits, the lists and the keys of a webhook, and which events it is sent: the functions at
-- the end of internal/webhooks/service.go, and `deliveryID` and `cursorKey` of dispatcher.go.
pub mod Laws
use barq_control_plane.Base.{
  ℕ, String, ◌==◌, ◌<>◌, is_blank, if◌then◌else◌, Bool, true, false, not, ◌&&◌, ◌||◌, List, [], ◌∷◌,
  ◌++◌, Option, none, some,
}
use barq_control_plane.Base.Ints.{ℤ, pos, is_not_positive, is_above}
use barq_control_plane.Base.Lists.{contains, is_nil}
use barq_control_plane.Base.Sorting.{sort_strings}
use barq_control_plane.Base.Text.{trim_space}
use barq_control_plane.Base.Decimal.{padded}
use barq_control_plane.Auth.Tenants.{Scope}
use barq_control_plane.DataPlane.{same_scope, ChangeEvent}
use barq_control_plane.Webhooks.Types.{Limits, default_limits, Webhook}

-- `x <= 0 || x > default`, at a default that is not negative.
abbrev pub limited : ℤ → ℕ → ℤ
limited x bound = if is_not_positive x || is_above x bound then pos bound else x

unfoldable pub effective_limits : Limits → Limits
effective_limits input = record {
  source_bytes = limited input.source_bytes 65536;
  memory_bytes = limited input.memory_bytes 16777216;
  stack_bytes = limited input.stack_bytes 524288;
  timeout = limited input.timeout 50000000;
  payload_bytes = limited input.payload_bytes 262144;
}

unfoldable pub revision_key : String → ℕ → String
unfolding padded
revision_key id number = id <> ("/" <> padded number)

unfoldable pub delivery_id : String → ℕ → String → String
unfolding padded
delivery_id webhook_id revision event_id =
    webhook_id <> ("/" <> (padded revision <> ("/" <> event_id)))

unfoldable pub cursor_key : Scope → String
cursor_key scope = scope.tenant <> ("/" <> scope.database)

-- The loop of `uniqueSorted`. The map `seen` holds exactly the items of `result`.
unfoldable pub unique : List String → List String → List String
unfolding trim_space contains
unique result [] = result
unique result (raw ∷ rest) =
    let value = trim_space raw in
    unique
      (if not (is_blank value) && not (contains result value) then result ++ value ∷ [] else result)
      rest

unfoldable pub unique_sorted : List String → List String
unfolding unique sort_strings
unique_sorted values = sort_strings (unique [] values)

unfoldable pub matches_hook : {V : Type 0} → Webhook V → ChangeEvent V → Bool
unfolding contains
matches_hook hook event =
    if not hook.enabled || not (same_scope hook.scope event.scope)
    then false
    else if not (contains hook.events "*") && not (contains hook.events event.event_type)
    then false
    else is_nil hook.object_types || contains hook.object_types event.object_type
