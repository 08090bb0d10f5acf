-- ===== src/Auth/Normalize.antt =====
-- `normalizeDatabases` and `normalizeActions` of internal/auth/manager.go.
pub mod Laws
use barq_control_plane.Base.{
  ℕ, String, ◌==◌, if◌then◌else◌, Bool, true, false, not, ◌&&◌, ◌||◌, leb, List, [], ◌∷◌, ◌++◌,
  Error, Result, ok, err, ◌>>=◌, ◌>>◌, ensure,
}
use barq_control_plane.Base.Lists.{length, contains}
use barq_control_plane.Base.Sorting.{sort_strings}
use barq_control_plane.Base.Text.{trim_space}
use barq_control_plane.Control.Checks.{invalid}
use barq_control_plane.Auth.Patterns.{valid_identity, valid_action}

-- The loop of both: every item is trimmed and tested, and repeated ones are dropped. The map `seen`
-- holds exactly the items of `result`.
unfoldable pub collect : (String → Bool) → Error → List String → List String → Result (List String)
unfolding trim_space contains
collect test failure result [] = ok result
collect test failure result (raw ∷ rest) =
    let item = trim_space raw in
    let go_on =
      collect test failure (if contains result item then result else result ++ item ∷ []) rest in
    if test item then go_on else err failure

abbrev pub sorted : Result (List String) → Result (List String)
sorted (ok items) = ok (sort_strings items)
sorted (err e) = err e

unfoldable pub normalize_databases : List String → Result (List String)
unfolding collect valid_identity sort_strings
normalize_databases input = do
  ensure (leb 1 (length input) && leb (length input) 50)
      (invalid "a tenant needs 1 to 50 databases")
  sorted (
      collect valid_identity
        (invalid "database names must use letters, numbers, dashes, or underscores") [] input)

abbrev pub action_test : String → Bool
action_test action = action == "*" || valid_action action

unfoldable pub normalize_actions : List String → Result (List String)
unfolding collect valid_action sort_strings
normalize_actions input = do
  ensure (leb 1 (length input) && leb (length input) 20)
      (invalid "an API key needs 1 to 20 actions")
  sorted (collect action_test (invalid "invalid API key action") [] input)
