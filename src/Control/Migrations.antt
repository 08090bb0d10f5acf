-- ===== src/Control/Migrations.antt =====
-- The schema of the control database: internal/control/migrations.go. `now` is `time.Now()`.
pub mod Laws
use barq_control_plane.Base.{
  ℕ, String, ◌<>◌, if◌then◌else◌, Bool, true, false, not, ◌&&◌, ◌||◌, Option, none, some, Error,
  plain, Result, ok, err, ◌>>=◌, ◌>>◌, ensure, is_code, not_found, wrap,
}
use barq_control_plane.Base.Ints.{ℤ, pos, is_not_positive, is_above, is_below, is_same}
use barq_control_plane.Control.Types.{Record, Codec}
use barq_control_plane.Control.Store.{Store, get, put}
use barq_control_plane.Control.Store.Steps.{and_then}

abbrev pub current_schema_version : ℕ
current_schema_version = 1

abbrev pub system_collection : String
system_collection = "_system"

abbrev pub schema_state_key : String
schema_state_key = "control_schema"

pub record SchemaState : Type 0 where
  pub version : ℤ
  pub updated_at : ℕ

-- encoding/json at this type, and the text of an `int` in a message.
pub record SchemaEnv (V : Type 0) : Type 0 where
  pub valid : V → Bool
  pub states : Codec V SchemaState
  pub show : ℤ → String

module _ {V : Type 0} (env : SchemaEnv V) where
  unfoldable pub check_migration : ℤ → ℤ → Result (Unit {0})
  check_migration from to = do
    ensure (not (is_not_positive from || is_not_positive to))
        (plain "control schema versions must be positive")
    ensure (not (is_above from current_schema_version || is_above to current_schema_version)) (
        plain (
          "this server supports control schema version "
          <> (env.show (pos current_schema_version)
              <> (", requested " <> (env.show from <> (" to " <> env.show to))))))
    ensure (not (is_below to from)) (
        plain (
          "control schema downgrade from "
          <> (env.show from <> (" to " <> (env.show to <> " is not supported")))))

  -- A nil `expected` is zero: the record must be new.
  abbrev pub expected_version : Option ℕ → ℕ
  expected_version none = 0
  expected_version (some v) = v

  abbrev pub put_state : Option ℕ → Store V → Result V → Result (Unit {0}) × Store V
  put_state expected s (err e) = (err e, s)
  put_state expected s (ok value) =
      and_then
        (put env.valid s system_collection schema_state_key value
          (some (expected_version expected)))
        λ r t. (ok tt, t)

  unfoldable pub write_schema_state : ℕ → ℤ → Option ℕ → Store V → Result (Unit {0}) × Store V
  write_schema_state now version expected s =
      put_state expected s (env.states.marshal (record { version = version; updated_at = now }))

  abbrev pub read_state : Record V → Result SchemaState
  read_state r = elim (env.states.unmarshal r.value) [
    | ok state ↦ ok state
    | err e ↦ err (wrap "read control schema state: " e)
  ]

  -- What both do with the state that is stored: nothing, where it has the version already.
  abbrev pub settle : ℕ → ℤ → ℕ → Result ℤ → Store V → Result (Unit {0}) × Store V
  settle now to stored (err e) s = (err e, s)
  settle now to stored (ok version) s =
      if is_same version to then (ok tt, s) else write_schema_state now to (some stored) s

  unfoldable pub ensure_schema : ℕ → Store V → Result (Unit {0}) × Store V
  unfolding check_migration write_schema_state
  ensure_schema now s = elim (get s system_collection schema_state_key) [
    | err e ↦
        if is_code e not_found
        then write_schema_state now (pos current_schema_version) none s
        else (err e, s)
    | ok r ↦
        settle now (pos current_schema_version) r.version
          (do
            state ← read_state r
            check_migration state.version (pos current_schema_version)
            ok state.version)
          s
  ]

  abbrev pub migrated : ℕ → ℤ → ℤ → Result (Record V) → Store V → Result (Unit {0}) × Store V
  migrated now from to (err e) s =
      if is_code e not_found then write_schema_state now to none s else (err e, s)
  migrated now from to (ok r) s =
      settle now to r.version
        (do
          state ← read_state r
          ensure (is_same state.version from || is_same state.version to) (
              plain (
                "control database is schema "
                <> (env.show state.version <> (", expected " <> env.show from))))
          ok state.version)
        s

  unfoldable pub apply_migration : ℕ → ℤ → ℤ → Store V → Result (Unit {0}) × Store V
  unfolding check_migration write_schema_state
  apply_migration now from to s = elim (check_migration from to) [
    | err e ↦ (err e, s)
    | ok u ↦ migrated now from to (get s system_collection schema_state_key) s
  ]
