-- ===== src/Control/Barq/Laws.antt =====
-- What is relied on of the embedded database, and what its rows stand for.
use barq_control_plane.Base.{
  String, ◌≡◌, ◌==◌, if◌then◌else◌, Option, none, some, List, [], ◌∷◌, Error, ok, err,
}
use barq_control_plane.Control.Types.{Record, record_id}
use barq_control_plane.Control.Store.{find_record}
use barq_control_plane.Control.Barq.{Row, Change, erase, set_row, create, Database, read_record}

module _ {V : Type 0} where
  -- The row under an id after one change.
  abbrev pub changed : Change V → (String → Option (Row V)) → String → Option (Row V)
  changed (erase row) look i = if i == row.id then none else look i
  changed (set_row row v n) look i =
      if i == row.id then some (record row { value = v; version = n }) else look i
  changed (create row) look i = if i == row.id then some row else look i

  unfoldable pub changed_all : List (Change V) → (String → Option (Row V)) → String → Option (Row V)
  changed_all [] look = look
  changed_all (change ∷ later) look = changed_all later (changed change look)

  abbrev pub record_at : Option (Row V) → Option (Record V)
  record_at none = none
  record_at (some row) = some (read_record row)

  -- The rows under ids stand for a table of records.
  abbrev pub Represents : (String → Option (Row V)) → List (Record V) → Type 0
  Represents look rs = (c k : String) → record_at (look (record_id c k)) ≡ find_record c k rs

-- A database holds rows by their primary key, the id. Reading finds them; a transaction that succeeds
-- makes its changes in order, and one that fails makes none.
pub record IsDatabase {D V : Type 0} (db : Database D V) : Type 0 where
  pub row_at : D → String → Option (Row V)
  pub own_id : (d : D) (i : String) (row : Row V) → row_at d i ≡ some row → row.id ≡ i
  pub find-ok : (d : D) (i : String) (o : Option (Row V)) → db.find d i ≡ ok o → o ≡ row_at d i
  pub write-ok :
      (d : D) (cs : List (Change V)) (u : Unit {0})
      → (db.write d cs).0 ≡ ok u
      → (i : String) → row_at (db.write d cs).1 i ≡ changed_all cs (row_at d) i
  pub write-err :
      (d : D) (cs : List (Change V)) (e : Error)
      → (db.write d cs).0 ≡ err e
      → (i : String) → row_at (db.write d cs).1 i ≡ row_at d i
