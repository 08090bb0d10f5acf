-- ===== src/Webhooks/Normalize/Laws.antt =====
-- What the limits, the lists and the keys of a webhook satisfy.
use barq_control_plane.Base.{
  ℕ, zero, suc, ◌≤◌, ◌<◌, ◌^◌, String, ◌==◌, eq_iff, ◌≡◌, ◌↔◌, refl, sym, ap, ap₂, ◌∙◌, ◌⊎◌, inl,
  inr, is_blank, if◌then◌else◌, true, not, ◌&&◌, ◌||◌, List, [], ◌∷◌, ◌++◌, arith, ltb, Bool-cases,
  len, map,
}
use barq_control_plane.Base.Ints.{ℤ, pos, negsuc}
use barq_control_plane.Base.Lists.{contains, is_nil, IsDistinct, contains-append}
use barq_control_plane.Base.Sorting.{
  IsSorted, sort_strings-IsSorted, sort_strings-IsDistinct, contains-sort_strings,
}
use barq_control_plane.Base.Text.{trim_space}
use barq_control_plane.Base.Decimal.{padded, padded-injective}
use barq_control_plane.Base.Keys.{cut_at_len, count-padded, cut_at_count}
use barq_control_plane.Auth.Normalize.Laws.{append_one-IsDistinct}
use barq_control_plane.Auth.Tenants.{Scope}
use barq_control_plane.DataPlane.{same_scope, ChangeEvent}
use barq_control_plane.Webhooks.Types.{Limits, Webhook}
use barq_control_plane.Webhooks.Normalize.{
  limited, effective_limits, revision_key, delivery_id, unique, unique_sorted, matches_hook,
}

-- Above zero and at most the bound.
pub data IsWithin (bound : ℕ) : ℤ → Type 0 where
  within : {n : ℕ} → 1 ≤ n → n ≤ bound → IsWithin bound (pos n)

limited-IsWithin : (x : ℤ) (bound : ℕ) → 1 ≤ bound → IsWithin bound (limited x bound)
limited-IsWithin (pos zero) bound h = within h (omega arith)
limited-IsWithin (negsuc n) bound h = within h (omega arith)
limited-IsWithin (pos (suc n)) bound h = elim (Bool-cases (ltb bound (suc n))) [
  | inl p ↦ rw p (within h (omega arith))
  | inr p ↦ rw p (within (omega arith) (ground arith))
]

pub record IsLimited (l : Limits) : Type 0 where
  pub source_ok : IsWithin 65536 l.source_bytes
  pub memory_ok : IsWithin 16777216 l.memory_bytes
  pub stack_ok : IsWithin 524288 l.stack_bytes
  pub timeout_ok : IsWithin 50000000 l.timeout
  pub payload_ok : IsWithin 262144 l.payload_bytes

-- Every effective limit is above zero and at most the default, whatever was asked for.
pub effective_limits-IsLimited : (input : Limits) → IsLimited (effective_limits input)
unfolding effective_limits
effective_limits-IsLimited input = record {
  source_ok = limited-IsWithin input.source_bytes 65536 (omega arith);
  memory_ok = limited-IsWithin input.memory_bytes 16777216 (omega arith);
  stack_ok = limited-IsWithin input.stack_bytes 524288 (omega arith);
  timeout_ok = limited-IsWithin input.timeout 50000000 (omega arith);
  payload_ok = limited-IsWithin input.payload_bytes 262144 (omega arith);
}

pub revision_key-injective :
    (id id' : String) (m n : ℕ)
    → len id ≡ len id'
    → revision_key id m ≡ revision_key id' n
    → (id ≡ id') × (m ≡ n)
unfolding revision_key
revision_key-injective id id' m n same h =
    let (a, b) = cut_at_len id id' _ _ same h in
    let (_, c) = cut_at_len "/" "/" _ _ refl b in (a, padded-injective m n c)

-- If two webhook ids have one length and both revisions are below 2^64, then equal delivery
-- ids come from one webhook id, one revision and one event id.
pub delivery_id-injective :
    (id id' : String) (m n : ℕ) (event event' : String)
    → len id ≡ len id'
    → m < 2 ^ 64
    → n < 2 ^ 64
    → delivery_id id m event ≡ delivery_id id' n event'
    → (id ≡ id') × (m ≡ n) × (event ≡ event')
unfolding delivery_id
delivery_id-injective id id' m n event event' same p q h =
    let (a, b) = cut_at_len id id' _ _ same h in
    let (_, c) = cut_at_len "/" "/" _ _ refl b in
    let (d, e) =
      cut_at_count (padded m) (padded n) _ _ (count-padded m p ∙ sym (count-padded n q)) c in
    let (_, f) = cut_at_len "/" "/" _ _ refl e in (a, padded-injective m n d, f)

-- The items that the loop adds.
abbrev step : List String → String → List String
step result value =
    if not (is_blank value) && not (contains result value) then result ++ value ∷ [] else result

step-IsDistinct :
    (result : List String) (value : String) → IsDistinct result → IsDistinct (step result value)
step-IsDistinct result value d = ground (arith, append_one-IsDistinct result value)

contains-step :
    (result : List String) (value v : String)
    → contains (step result value) v ≡ (contains result v || (not (is_blank v) && (value == v)))
unfolding contains
contains-step result value v =
    ground
      (arith, contains-append result (value ∷ []) v, eq_iff value v, eq_iff value "", eq_iff v "")

unique-IsDistinct :
    (values result : List String) → IsDistinct result → IsDistinct (unique result values)
unfolding unique
unique-IsDistinct [] result d = d
unique-IsDistinct (raw ∷ rest) result d =
    unique-IsDistinct rest _ (step-IsDistinct result (trim_space raw) d)

contains-unique :
    (values result : List String) (v : String)
    → contains (unique result values) v
      ≡ (contains result v || (not (is_blank v) && contains (map trim_space values) v))
unfolding unique contains
contains-unique [] result v = ground arith
contains-unique (raw ∷ rest) result v =
    contains-unique rest _ v ∙ ground (arith, contains-step result (trim_space raw) v)

-- What `uniqueSorted` promises of its input.
pub record IsUniqueSorted (input items : List String) : Type 0 where
  pub in_order : IsSorted items
  pub distinct : IsDistinct items
  pub same_items :
      (v : String) → contains items v ≡ (not (is_blank v) && contains (map trim_space input) v)

-- The list is sorted and without repetitions, and its items are exactly the trimmed items of
-- the input that are not blank.
pub unique_sorted-IsUniqueSorted :
    (values : List String) → IsUniqueSorted values (unique_sorted values)
unfolding unique_sorted contains
unique_sorted-IsUniqueSorted values = record {
  in_order = sort_strings-IsSorted (unique [] values);
  distinct = sort_strings-IsDistinct (unique [] values) (unique-IsDistinct values [] tt);
  same_items = λ v. contains-sort_strings (unique [] values) v ∙ contains-unique values [] v;
}

scope_of : String → String → Scope
scope_of t d = record { tenant = t; database = d }

pub same_scope_iff : (a b : Scope) → (same_scope a b ≡ true) ↔ (a ≡ b)
unfolding scope_of
same_scope_iff a b = (
  λ h.
      ap₂ scope_of ((eq_iff a.tenant b.tenant).0 (ground arith))
        ((eq_iff a.database b.database).0 (ground arith)),
  λ e. ground (
    arith,
    eq_iff a.tenant b.tenant,
    eq_iff a.database b.database,
    ap (λ (s : Scope). s.tenant) e,
    ap (λ (s : Scope). s.database) e,
  ),
)

nil_iff : (xs : List String) → (is_nil xs ≡ true) ↔ (xs ≡ [])
nil_iff [] = (λ _. refl, λ _. refl)
nil_iff (x ∷ xs) = (λ h. cc, λ h. cc)

-- An event matches a webhook exactly if the webhook is enabled, has the event's scope, lists
-- `*` or the event's type, and lists no object types or the event's.
pub matches_hook_iff :
    {V : Type 0} (hook : Webhook V) (event : ChangeEvent V)
    → (matches_hook hook event ≡ true) ↔ (
        (hook.enabled ≡ true)
        × (hook.scope ≡ event.scope)
        × ((contains hook.events "*" ≡ true) ⊎ (contains hook.events event.event_type ≡ true))
        × ((hook.object_types ≡ []) ⊎ (contains hook.object_types event.object_type ≡ true)))
unfolding matches_hook
matches_hook_iff hook event =
    grind (arith, same_scope_iff hook.scope event.scope, nil_iff hook.object_types)
