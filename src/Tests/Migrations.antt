-- ===== src/Tests/Migrations.antt =====
-- A control database that is migrated for the first time.
use barq_control_plane.Base.{
  ℕ, String, ◌≡◌, refl, sym, ap, true, Option, none, some, List, [], ◌∷◌, Result, ok, err,
}
use barq_control_plane.Base.Ints.{pos}
use barq_control_plane.Control.Types.{IsCodec}
use barq_control_plane.Control.Store.{Store}
use barq_control_plane.Control.Migrations.{SchemaEnv, SchemaState, apply_migration}
use barq_control_plane.Control.Migrations.Laws.{HasVersion, apply_migration-ok}

abbrev schema_env : SchemaEnv SchemaState
schema_env = record {
  valid = λ v. true;
  states = record { marshal = λ s. ok s; unmarshal = λ s. ok s };
  show = λ n. "n";
}

states_law : IsCodec schema_env.valid schema_env.states
states_law = record { unmarshal-marshal = λ s v e. sym e; valid-marshal = λ s v e. refl }

abbrev fresh : Store SchemaState
fresh = record { records = []; fault = λ r. none }

apply_migration-ok_example :
    HasVersion schema_env (pos 1) (apply_migration schema_env 7 (pos 1) (pos 1) fresh).1
unfolding apply_migration barq_control_plane.Control.Store.get
    barq_control_plane.Control.Store.find_record barq_control_plane.Control.Store.put
    barq_control_plane.Control.Store.apply barq_control_plane.Control.Store.plan
    barq_control_plane.Base.Lists.contains barq_control_plane.Control.Store.put_results
apply_migration-ok_example = apply_migration-ok schema_env states_law 7 (pos 1) (pos 1) fresh refl
