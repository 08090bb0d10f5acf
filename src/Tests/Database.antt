-- ===== src/Tests/Database.antt =====
-- An embedded database that keeps its rows as a function of their ids, and what the theorems on
-- BarqStore say of a write to it.
use barq_control_plane.Base.{
  ℕ, String, ◌≡◌, refl, sym, ◌==◌, eq_iff, if◌then◌else◌, Bool, true, Option, none, some, List, [],
  ◌∷◌, Error, Result, ok, err, arith, ◌⊎◌,
}
use barq_control_plane.Base.Results.{ok-injective}
use barq_control_plane.Control.Types.{Record, Mutation}
use barq_control_plane.Control.Checks.{next_version}
use barq_control_plane.Control.Store.{Store, find_record, put_of, apply}
use barq_control_plane.Control.Store.Laws.{version_of}
use barq_control_plane.Control.Barq.{
  Row, Change, erase, set_row, create, Database, barq_get, barq_put, barq_apply,
}
use barq_control_plane.Control.Barq.Laws.{changed, changed_all, IsDatabase}
use barq_control_plane.Control.Barq.Refinement.{Implements, IsOutside, Agrees, barq_apply-Agrees}
use barq_control_plane.Control.Barq.Trips.{barq_get-barq_put}

-- Rows under their own ids.
abbrev HasIds : (String → Option (Row ℕ)) → Type 0
HasIds look = (i : String) (row : Row ℕ) → look i ≡ some row → row.id ≡ i

record Rows : Type 0 where
  look : String → Option (Row ℕ)
  own : HasIds look

changed-HasIds :
    (change : Change ℕ) (look : String → Option (Row ℕ))
    → HasIds look
    → HasIds (changed change look)
changed-HasIds (erase row) look own i r h = ground (arith, own i r)
changed-HasIds (set_row row v n) look own i r h = ground (arith, own i r, eq_iff i row.id)
changed-HasIds (create row) look own i r h = ground (arith, own i r, eq_iff i row.id)

changed_all-HasIds :
    (changes : List (Change ℕ)) (look : String → Option (Row ℕ))
    → HasIds look
    → HasIds (changed_all changes look)
unfolding changed_all
changed_all-HasIds [] look own = own
changed_all-HasIds (change ∷ later) look own =
    changed_all-HasIds later (changed change look) (changed-HasIds change look own)

abbrev database : Database Rows ℕ
database = record {
  find = λ rows i. ok (rows.look i);
  all = λ rows. ok [];
  write = λ rows changes. (
    ok tt,
    record {
      look = changed_all changes rows.look;
      own = changed_all-HasIds changes rows.look rows.own;
    },
  );
}

abbrev database_law : IsDatabase database
database_law = record {
  row_at = λ rows. rows.look;
  own_id = λ rows. rows.own;
  find-ok = λ rows i o h. sym (ok-injective h);
  write-ok = λ rows changes u h i. refl;
  write-err = λ rows changes e h i. cc h;
}

abbrev no_rows : Rows
no_rows = record { look = λ i. none; own = λ i row h. cc h }

abbrev no_records : Store ℕ
no_records = record { records = []; fault = λ r. none }

empty : Implements database database_law no_rows no_records
unfolding find_record
empty = record { stands = λ c k. refl; calm = refl }

abbrev any_value : ℕ → Bool
any_value v = true

abbrev two_puts : List (Mutation ℕ)
two_puts = put_of "notes" "a" 1 (some 0) ∷ put_of "notes" "b" 2 none ∷ []

barq_apply-Agrees_example :
    Agrees database database_law none no_records
      (barq_apply database any_value none no_rows two_puts)
      (apply any_value no_records two_puts)
barq_apply-Agrees_example =
    barq_apply-Agrees database database_law any_value none no_rows no_records two_puts empty

abbrev note : Record ℕ
note = record { collection = "notes"; key = "a"; value = 1; version = 1 }

barq_get-barq_put_example :
    (note ≡ record {
      collection = "notes";
      key = "a";
      value = 1;
      version = next_version (version_of (find_record "notes" "a" no_records.records));
    })
    × ((barq_get database none
            (barq_put database any_value none no_rows "notes" "a" 1 (some 0)).1
            "notes"
            "a"
          ≡ ok note)
        ⊎ ((e : Error) × (barq_get database none
                (barq_put database any_value none no_rows "notes" "a" 1 (some 0)).1
                "notes"
                "a"
              ≡ err e)
            × IsOutside database database_law none e))
unfolding barq_put barq_control_plane.Base.Lists.contains
barq_get-barq_put_example =
    barq_get-barq_put database database_law any_value none none no_rows no_records "notes" "a" 1
      (some 0) empty refl
