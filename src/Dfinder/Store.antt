-- ===== src/Dfinder/Store.antt =====
-- src/dfinder/store.rs: the table of nodes. SQLite is a parameter: one function for each of the
-- four statements of the source, over a connection.
pub mod Table
pub mod Lookup
pub mod Refines
use proto.Base.{
  ℕ, ◌%◌, ◌^◌, Bool, List, [], ◌∷◌, String, Option, none, some, str_eq, if◌then◌else◌, Outcome, ok,
  err, ◌>>=◌, map_err,
}
use proto.Base.Maps.{all, filter, contains}
use proto.Base.Json.{JsonError}
use proto.Dfinder.Protocol.{NodeInfo, Serde}

-- A row of `nodes`. The program writes ports and times that are not negative.
pub record Row : Type 0 where
  pub ip : String
  pub port : ℕ
  pub labels : String
  pub extra : String
  pub updated_at : ℕ

-- `rusqlite::Error`, with its text.
pub data SqlError : Type 0 where
  sql_error : String → SqlError

pub data StoreError : Type 0 where
  sqlite : SqlError → StoreError
  json : JsonError → StoreError
  poisoned : StoreError

-- The statements of the source, each of which changes the database as a whole or fails. Stepping
-- through the rows of the query can fail at each row.
pub record Sqlite (Conn : Type 0) : Type 0 where
  pub open_path : String → Outcome SqlError Conn
  pub open_in_memory : Outcome SqlError Conn
  -- CREATE TABLE IF NOT EXISTS nodes (ip TEXT PRIMARY KEY NOT NULL, …)
  pub create_nodes : Conn → Outcome SqlError Conn
  -- INSERT INTO nodes … ON CONFLICT(ip) DO UPDATE SET …
  pub insert_or_update : Row → Conn → Outcome SqlError Conn
  -- DELETE FROM nodes WHERE ip = ?1
  pub delete_ip : String → Conn → Outcome SqlError Conn
  -- SELECT ip, port, labels, extra FROM nodes
  pub select_nodes : Conn → Outcome SqlError (List (Outcome SqlError Row))

-- The mutex is poisoned once a thread has panicked while it held the lock.
pub record NodeStore (Conn : Type 0) : Type 0 where
  pub conn : Conn
  pub is_poisoned : Bool

module _ {Conn : Type 0} where
  -- `fn lock`.
  unfoldable pub lock : NodeStore Conn → Outcome StoreError Conn
  lock store = if store.is_poisoned then err poisoned else ok store.conn

  -- A statement under the lock.
  abbrev pub execute :
      (Conn → Outcome SqlError Conn) → NodeStore Conn → Outcome StoreError (NodeStore Conn)
  execute statement store = do
    conn ← lock store
    conn' ← map_err sqlite (statement conn)
    ok (record store { conn = conn' })

module _ {Conn : Type 0} (db : Sqlite Conn) where
  -- `fn migrate`.
  unfoldable pub migrate : NodeStore Conn → Outcome StoreError (NodeStore Conn)
  migrate store = execute db.create_nodes store

  -- `fn open` and `fn open_in_memory`.
  unfoldable pub open_store : Option String → Outcome StoreError (NodeStore Conn)
  unfolding migrate
  open_store (some path) = do
    conn ← map_err sqlite (db.open_path path)
    migrate (record { conn = conn; is_poisoned = Bool.false })
  open_store none = do
    conn ← map_err sqlite db.open_in_memory
    migrate (record { conn = conn; is_poisoned = Bool.false })

  -- `fn remove`.
  unfoldable pub remove : String → NodeStore Conn → Outcome StoreError (NodeStore Conn)
  remove ip store = execute (db.delete_ip ip) store

module _ {E : Type 0} where
  -- The filter of `list_by_labels`: every label asked for is one of the node's.
  abbrev pub has_labels : List String → NodeInfo E → Bool
  has_labels labels node = all (contains node.labels) labels

module _ {E : Type 0} (serde : Serde E) where
  -- The body of the loop of `list_all`.
  unfoldable pub decode_row : Row → Outcome StoreError (NodeInfo E)
  decode_row row = do
    labels ← map_err json (serde.labels.decode row.labels)
    extra ← map_err json (serde.extra.decode row.extra)
    ok (record { ip = row.ip; port = row.port % 2 ^ 16; labels = labels; extra = extra })

  unfoldable pub decode_rows : List (Outcome SqlError Row) → Outcome StoreError (List (NodeInfo E))
  unfolding decode_row
  decode_rows [] = ok []
  decode_rows (step ∷ steps) = do
    row ← map_err sqlite step
    node ← decode_row row
    nodes ← decode_rows steps
    ok (node ∷ nodes)

module _ {E Conn : Type 0} (serde : Serde E) (db : Sqlite Conn) where
  -- `fn upsert`; `now` is `now_secs()`.
  unfoldable pub upsert : ℕ → NodeInfo E → NodeStore Conn → Outcome StoreError (NodeStore Conn)
  upsert now node store = do
    labels_json ← map_err json (serde.labels.encode node.labels)
    extra_json ← map_err json (serde.extra.encode node.extra)
    execute
        (db.insert_or_update (record {
          ip = node.ip;
          port = node.port;
          labels = labels_json;
          extra = extra_json;
          updated_at = now;
        }))
        store

  -- `fn list_all`.
  unfoldable pub list_all : NodeStore Conn → Outcome StoreError (List (NodeInfo E))
  list_all store = do
    conn ← lock store
    steps ← map_err sqlite (db.select_nodes conn)
    decode_rows serde steps

  -- `fn list_by_labels`.
  unfoldable pub list_by_labels :
      List String → NodeStore Conn → Outcome StoreError (List (NodeInfo E))
  list_by_labels labels store = do nodes ← list_all store; ok (filter (has_labels labels) nodes)
