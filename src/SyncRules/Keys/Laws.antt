-- ===== src/SyncRules/Keys/Laws.antt =====
-- Where the keys of sync rules can be cut again.
use barq_control_plane.Base.{ℕ, String, ◌≡◌, refl, sym, ap, ap₂, ◌∙◌, ◌<>◌, len}
use barq_control_plane.Base.Decimal.{decimal, decimal-injective, padded-injective}
use barq_control_plane.Base.Keys.{cut_at_colon, cut_at_len, every-decimal}
use text.Mathlib.TextLemmas.{append_assoc}
use barq_control_plane.Auth.Tenants.{Scope}
use barq_control_plane.SyncRules.Keys.{sized, scope_key, revision_key}

regroup : (a x : String) → sized a <> x ≡ decimal (len a) <> (":" <> (a <> x))
regroup a x =
    append_assoc (decimal (len a)) (":" <> a) x
    ∙ ap (λ t. decimal (len a) <> t) (append_assoc ":" a x)

regroup_scope :
    (s : Scope) (x : String) → scope_key s <> x ≡ sized s.tenant <> ("/" <> (sized s.database <> x))
unfolding scope_key
regroup_scope s x =
    append_assoc (sized s.tenant) ("/" <> sized s.database) x
    ∙ ap (λ t. sized s.tenant <> t) (append_assoc "/" (sized s.database) x)

abbrev scope_of : String → String → Scope
scope_of t d = record { tenant = t; database = d }

-- Two sized texts with something behind them are cut in one way.
cut_sized : (a b x y : String) → sized a <> x ≡ sized b <> y → (a ≡ b) × (x ≡ y)
cut_sized a b x y h =
    let h' : decimal (len a) <> (":" <> (a <> x)) ≡ decimal (len b) <> (":" <> (b <> y)) =
      sym (regroup a x) ∙ h ∙ regroup b y in
    let (n, rest) =
      cut_at_colon (decimal (len a)) (decimal (len b)) (a <> x) (b <> y) (every-decimal (len a))
        (every-decimal (len b)) h' in
    cut_at_len a b x y (decimal-injective (len a) (len b) n) rest

-- The key of a scope with something behind it is cut in one way.
pub cut_scope :
    (s t : Scope) (x y : String) → scope_key s <> x ≡ scope_key t <> y → (s ≡ t) × (x ≡ y)
unfolding scope_key
cut_scope s t x y h =
    let h' : sized s.tenant <> ("/" <> (sized s.database <> x))
        ≡ sized t.tenant <> ("/" <> (sized t.database <> y)) =
      sym (regroup_scope s x) ∙ h ∙ regroup_scope t y in
    let (tenant, rest) = cut_sized s.tenant t.tenant _ _ h' in
    let (_, rest') = cut_at_len "/" "/" _ _ refl rest in
    let (database, behind) = cut_sized s.database t.database x y rest' in
    (ap₂ scope_of tenant database, behind)

-- Two scopes have one key only if they are one scope, whatever texts their names are.
pub scope_key-injective : (s t : Scope) → scope_key s ≡ scope_key t → s ≡ t
scope_key-injective s t h = (cut_scope s t "" "" (ap (λ k. k <> "") h)).0

-- Two revisions have one key only if they have one scope and one number.
pub revision_key-injective_lem :
    (s t : Scope) (m n : ℕ) → revision_key s m ≡ revision_key t n → (s ≡ t) × (m ≡ n)
unfolding revision_key
revision_key-injective_lem s t m n h =
    let (scope, behind) = cut_scope s t _ _ h in
    let (_, number) = cut_at_len "/" "/" _ _ refl behind in (scope, padded-injective m n number)
