-- ===== src/Dfinder/Runs.antt =====
-- Concrete runs of the registry on one node, for the tests.
use proto.Base.{
  sym, ℕ, ◌≡◌, refl, true, false, List, [], ◌∷◌, String, str_eq, none, some, if◌then◌else◌, ok,
}
use proto.Base.Maps.{empty}
use proto.Dfinder.Store
use proto.Dfinder.Store.{
  Row, NodeStore, lock, open_store, migrate, upsert, list_all, decode_row, decode_rows,
  list_by_labels, has_labels,
}
use proto.Dfinder.Store.Refines.{node_at, list_all-node_at}
use proto.Dfinder.Server.State.{Inner, Server, ServerConfig, initial_health, new}
use proto.Dfinder.Server.Locked.{
  mark_node, mark_nodes, store_node, find_healthy, remove_node, remove_expired, run_probe_cycle,
}
use proto.Base.Counter.{advance}
use proto.TinyFrame.Bytes.{to_be_bytes, from_be_bytes}
use proto.TinyFrame.Header.{pack_header_byte}
use proto.TinyFrame.Payload.{compress_payload, decompress_payload}
use proto.TinyFrame.Wire.{seal, unseal, build_wire_frame, parse_wire_frame}
use proto.TinyFrame.Stream.{
  read_exact, read_payload, write_all, flush, write_frame_plain, read_frame,
}
use proto.TinyFrame.Stream.Framing.{source}
use proto.TinyFrame.Samples.{marking, nonce, eof, idle}
use proto.Dfinder.Client.{Session, new_client, next_tx_id, register}
use proto.Dfinder.Server.Handlers.{World, handle_conn, handle_frame, handle_register}
use proto.TinyFrame.Types.{Frame}
use proto.Dfinder.Samples.{rows_db_laws, json_samples_laws, rows_db, json_samples, api, node}

abbrev pub row : Row
row = record { ip = "10.0.0.1"; port = 9001; labels = "[\"api\"]"; extra = "0"; updated_at = 77 }

abbrev pub store₀ : NodeStore (List Row)
store₀ = record { conn = []; is_poisoned = false }

abbrev pub store₁ : NodeStore (List Row)
store₁ = record { conn = row ∷ []; is_poisoned = false }

pub upsert_run : upsert json_samples rows_db 77 node store₀ ≡ ok store₁
unfolding upsert lock
upsert_run = refl

pub list_none : list_all json_samples rows_db store₀ ≡ ok []
unfolding list_all decode_rows lock
list_none = refl

pub list_one : list_all json_samples rows_db store₁ ≡ ok (node ∷ [])
unfolding list_all decode_rows lock
list_one = refl

pub labels_one : list_by_labels json_samples rows_db api store₁ ≡ ok (node ∷ [])
unfolding list_by_labels list_all decode_rows lock
labels_one = refl

-- A registry whose probe always fails, before and after the registration at time 10.
abbrev pub inner₀ : Inner ℕ (List Row)
inner₀ = record { store = store₀; health = empty; probe = λ n. false; offline_ttl = 5 }

abbrev pub inner₁ : Inner ℕ (List Row)
inner₁ = record inner₀ {
  store = store₁;
  health =
      λ j. if str_eq "10.0.0.1" j then some (record { healthy = true; last_ok = 10 }) else none;
}

pub store_node_run : store_node json_samples rows_db 77 10 node inner₀ ≡ ok inner₁
unfolding store_node upsert lock
store_node_run = refl

-- The cycle at time 15 finds the node unhealthy for five units, and removes it.
abbrev pub inner₂ : Inner ℕ (List Row)
inner₂ = (run_probe_cycle json_samples rows_db 15 inner₁).1

pub cycle_run : run_probe_cycle json_samples rows_db 15 inner₁ ≡ (ok tt, inner₂)
unfolding run_probe_cycle list_all decode_rows lock mark_nodes mark_node remove_expired remove_node
    Store.remove
cycle_run = refl

pub list_after : list_all json_samples rows_db inner₂.store ≡ ok []
unfolding run_probe_cycle list_all decode_rows lock mark_nodes mark_node remove_expired remove_node
    Store.remove
list_after = refl

pub find_after : find_healthy json_samples rows_db api inner₂ ≡ ok []
unfolding find_healthy list_by_labels run_probe_cycle list_all decode_rows lock mark_nodes mark_node
    remove_expired remove_node Store.remove
find_after = refl

abbrev pub config : ServerConfig ℕ
config = record {
  listen = "127.0.0.1:0";
  db_path = none;
  probe_interval = 60;
  health_probe = λ n. false;
  offline_ttl = 5;
}

abbrev pub server : Server ℕ (List Row)
server = record { inner = inner₀; listen = "127.0.0.1:0"; probe_interval = 60 }

pub new_run : new json_samples rows_db 0 config ≡ ok server
unfolding new open_store migrate list_all decode_rows lock initial_health
new_run = refl

abbrev pub expired : List String
expired = "10.0.0.1" ∷ []

abbrev pub inner₃ : Inner ℕ (List Row)
inner₃ = (remove_expired rows_db expired inner₁).1

pub removal_run : remove_expired rows_db expired inner₁ ≡ (ok tt, inner₃)
unfolding remove_expired remove_node Store.remove lock
removal_run = refl

-- A client that registers the node with this registry, and the answer that it gets.
abbrev pub session : Session ℕ
session = record {
  client = new_client (λ n. true);
  out = idle;
  replies = source (16 ∷ 0 ∷ 0 ∷ 0 ∷ 0 ∷ 0 ∷ 0 ∷ 0 ∷ 1 ∷ 0 ∷ 2 ∷ 123 ∷ 125 ∷ []) eof;
}

abbrev pub request_bytes : List ℕ
request_bytes = 8 ∷ 0 ∷ 0 ∷ 0 ∷ 0 ∷ 0 ∷ 0 ∷ 0 ∷ 1 ∷ 0 ∷ 1 ∷ 1 ∷ []

abbrev pub session' : Session ℕ
session' = record {
  client = record { health_check = λ n. true; next_tx = 2 };
  out = record idle { written = request_bytes; flushed = request_bytes; room = 988 };
  replies = source [] eof;
}

pub register_run :
    register marking none nonce json_samples (ok tt) 9001 api 0 session ≡ (ok tt, session')
unfolding register next_tx_id advance write_frame_plain build_wire_frame pack_header_byte
    compress_payload seal to_be_bytes write_all flush read_frame read_exact read_payload
    from_be_bytes parse_wire_frame unseal decompress_payload
register_run = refl

abbrev pub world : World ℕ (List Row)
world = record { inner = inner₀; out = idle }

abbrev pub world' : World ℕ (List Row)
world' = record {
  inner = inner₁;
  out = record idle {
    written = 16 ∷ 0 ∷ 0 ∷ 0 ∷ 0 ∷ 0 ∷ 0 ∷ 0 ∷ 1 ∷ 0 ∷ 2 ∷ 123 ∷ 125 ∷ [];
    flushed = 16 ∷ 0 ∷ 0 ∷ 0 ∷ 0 ∷ 0 ∷ 0 ∷ 0 ∷ 1 ∷ 0 ∷ 2 ∷ 123 ∷ 125 ∷ [];
    room = 987;
  };
}

pub handle_conn_run :
    handle_conn marking none nonce json_samples rows_db 77 10 "10.0.0.1"
      (source request_bytes eof)
      world
    ≡ (ok tt, world')
unfolding handle_conn handle_frame handle_register store_node upsert lock write_frame_plain
    build_wire_frame pack_header_byte compress_payload seal to_be_bytes write_all flush read_frame
    read_exact read_payload from_be_bytes parse_wire_frame unseal decompress_payload
handle_conn_run = refl

abbrev pub register_frame : Frame
register_frame = record {
  message_type = 1;
  compress_id = 0;
  encrypted = false;
  tx_id = 1;
  payload = 1 ∷ [];
}

pub read_request :
    read_frame marking none (source request_bytes eof) ≡ ok (register_frame, source [] eof)
unfolding read_frame read_exact read_payload from_be_bytes parse_wire_frame unseal
    decompress_payload to_be_bytes
read_request = refl

pub stored_one : node_at json_samples rows_db rows_db_laws store₁ "10.0.0.1" ≡ some node
stored_one = sym (
    list_all-node_at json_samples json_samples_laws rows_db rows_db_laws store₁ (node ∷ [])
      "10.0.0.1" list_one)
