-- ===== src/Control/Checks.antt =====
-- The checks that a transaction makes before it writes: the loop of `BarqStore.Apply` in
-- internal/control/barq.go, over any way to look a record up.
use barq_control_plane.Base.{
  ℕ, zero, ◌+◌, ◌%◌, ◌^◌, String, ◌==◌, is_blank, eqb, leb, Bool, true, false, not, ◌&&◌, ◌||◌,
  Option, none, some, List, [], ◌∷◌, Error, coded, Result, ok, ◌>>=◌, ◌>>◌, ensure,
  invalid_argument, not_found, conflict,
}
use barq_control_plane.Base.Lists.{contains, length}
use barq_control_plane.Control.Types.{Mutation, mutation_put, mutation_delete, record_id}

abbrev pub invalid : String → Error
invalid message = coded invalid_argument message

abbrev pub conflict_error : String → Error
conflict_error message = coded conflict message

abbrev pub not_found_error : Error
not_found_error = coded not_found "control record not found"

unfoldable pub validate_identity : String → String → Result (Unit {0})
validate_identity collection key =
    ensure (not (is_blank collection || is_blank key)) (invalid "collection and key are required")

-- A mutation that passed its checks: the object that was found, and the next version.
pub record Pending (V O : Type 0) : Type 0 where
  pub mutation : Mutation V
  pub object : Option O
  pub next : ℕ

-- A version is a uint64.
abbrev pub word : ℕ
word = 2 ^ 64

-- The test on `ExpectedVersion`, at the version of the record that was found.
unfoldable pub version_matches : Option ℕ → Option ℕ → Bool
version_matches none current = true
version_matches (some zero) none = true
version_matches (some zero) (some v) = false
version_matches (some e) none = false
version_matches (some e) (some v) = eqb v e

abbrev pub found_version : {O : Type 0} → Option (O × ℕ) → Option ℕ
found_version none = none
found_version (some (o, v)) = some v

abbrev pub found_object : {O : Type 0} → Option (O × ℕ) → Option O
found_object none = none
found_object (some (o, v)) = some o

abbrev pub next_version : Option ℕ → ℕ
next_version none = 1
next_version (some v) = (v + 1) % word

abbrev pub is_some : {A : Type 0} → Option A → Bool
is_some none = false
is_some (some a) = true

module _ {V O : Type 0} (valid : V → Bool) (look : String → String → Result (Option (O × ℕ))) where
  unfoldable pub check_mutation : List String → Mutation V → Result (Pending V O)
  unfolding validate_identity version_matches
  check_mutation seen m = do
    validate_identity m.collection m.key
    ensure (m.op == mutation_put || m.op == mutation_delete) (invalid "unknown control mutation")
    ensure (not (m.op == mutation_put && not (valid m.value))) (invalid "value must be valid JSON")
    ensure (not (contains seen (record_id m.collection m.key)))
        (invalid "a control transaction cannot mutate the same record twice")
    found ← look m.collection m.key
    ensure (not (m.op == mutation_delete && not (is_some found))) not_found_error
    ensure (version_matches m.expected (found_version found))
        (conflict_error "control record version mismatch")
    ok (record {
      mutation = m;
      object = found_object found;
      next = next_version (found_version found);
    })

  -- The loop; `seen` holds the ids of the mutations before.
  unfoldable pub check_all : List String → List (Mutation V) → Result (List (Pending V O))
  unfolding check_mutation
  check_all seen [] = ok []
  check_all seen (m ∷ ms) = do
    p ← check_mutation seen m
    rest ← check_all (record_id m.collection m.key ∷ seen) ms
    ok (p ∷ rest)

-- The size of a transaction.
unfoldable pub check_count {ℓ} : {A : Type ℓ} → List A → Result (Unit {0})
check_count ms =
    ensure (leb 1 (length ms) && leb (length ms) 100)
      (invalid "a control transaction needs 1 to 100 mutations")
