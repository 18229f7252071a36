-- ===== src/Dfinder/Store/Table.antt =====
-- What SQLite's documentation promises of the four statements, over the table's abstract content:
-- at most one row for each `ip`, its primary key.
use proto.Base.{◌≡◌, List, [], ◌∷◌, String, Option, none, some, str_eq, if◌then◌else◌, Outcome, ok}
use proto.Dfinder.Store.{Row, SqlError, Sqlite}

abbrev pub find_row : String → List Row → Option Row
find_row ip [] = none
find_row ip (row ∷ rows) = if str_eq row.ip ip then some row else find_row ip rows

-- No two rows have one key.
abbrev pub UniqueRows : List Row → Type 0
UniqueRows [] = Unit {0}
UniqueRows (row ∷ rows) = (find_row row.ip rows ≡ none) × UniqueRows rows

-- The rows of a query that was stepped through without an error.
abbrev pub stepped : List Row → List (Outcome SqlError Row)
stepped [] = []
stepped (row ∷ rows) = ok row ∷ stepped rows

pub record SqliteLaws {Conn : Type 0} (db : Sqlite Conn) : Type 0 where
  pub holds : Conn → String → Option Row
  pub created : (c c' : Conn) (ip : String) → db.create_nodes c ≡ ok c' → holds c' ip ≡ holds c ip
  pub inserted :
      (row : Row) (c c' : Conn) (ip : String)
      → db.insert_or_update row c ≡ ok c'
      → holds c' ip ≡ (if str_eq row.ip ip then some row else holds c ip)
  pub deleted :
      (key : String) (c c' : Conn) (ip : String)
      → db.delete_ip key c ≡ ok c'
      → holds c' ip ≡ (if str_eq key ip then none else holds c ip)
  pub selected :
      (c : Conn) (rows : List Row) (ip : String)
      → db.select_nodes c ≡ ok (stepped rows)
      → find_row ip rows ≡ holds c ip
  pub unique :
      (c : Conn) (rows : List Row) → db.select_nodes c ≡ ok (stepped rows) → UniqueRows rows
