-- ===== src/Auth/Patterns.antt =====
-- The regular expressions of internal/auth/manager.go, as matchers of a whole text.
use Prim.Native.Char.{code}
use Prim.Native.String.{String, [], ◌∷◌, count}
use barq_control_plane.Base.{ℕ, Bool, true, false, ◌&&◌, ◌||◌, leb, eqb, if◌then◌else◌}
use barq_control_plane.Base.Text.{every}

abbrev pub is_lower : ℕ → Bool
is_lower c = leb b'a' c && leb c b'z'

abbrev pub is_upper : ℕ → Bool
is_upper c = leb b'A' c && leb c b'Z'

abbrev pub is_digit : ℕ → Bool
is_digit c = leb b'0' c && leb c b'9'

abbrev pub is_alphanumeric : ℕ → Bool
is_alphanumeric c = is_lower c || is_upper c || is_digit c

abbrev pub is_identity_char : ℕ → Bool
is_identity_char c = is_alphanumeric c || eqb c b'_' || eqb c b'-'

-- identityPattern: ^[a-zA-Z0-9][a-zA-Z0-9_-]{0,62}$
unfoldable pub valid_identity : String → Bool
unfolding every
valid_identity [] = false
valid_identity (c ∷ s) = is_alphanumeric (code c) && every is_identity_char s && leb (count s) 62

abbrev pub is_action_char : ℕ → Bool
is_action_char c = is_lower c || is_digit c || eqb c b'_' || eqb c b'-'

-- Where the matcher of an action stands: before or in its first word, before or in its second.
pub data Place : Type 0 where
  first_start first_word second_start second_word : Place

unfoldable pub matches_action : Place → String → Bool
matches_action first_start [] = false
matches_action first_word [] = true
matches_action second_start [] = false
matches_action second_word [] = true
matches_action first_start (c ∷ s) = is_lower (code c) && matches_action first_word s
matches_action first_word (c ∷ s) =
    let word = matches_action first_word s in
    let next = matches_action second_start s in
    if is_action_char (code c) then word else (eqb (code c) b':' && next)
matches_action second_start (c ∷ s) = is_lower (code c) && matches_action second_word s
matches_action second_word (c ∷ s) = is_action_char (code c) && matches_action second_word s

-- actionPattern: ^[a-z][a-z0-9_-]*(?::[a-z][a-z0-9_-]*)?$
unfoldable pub valid_action : String → Bool
unfolding matches_action
valid_action = matches_action first_start
