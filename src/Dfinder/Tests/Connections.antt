-- ===== src/Dfinder/Tests/Connections.antt =====
-- A client and the registry on one connection.
use proto.Base.{ℕ, ◌≡◌, refl, true, false, List, [], ◌∷◌, some, none, ok, arith}
use proto.Base.Maps.{filter}
use proto.Base.Counter.{advance}
use proto.TinyFrame.Bytes.{to_be_bytes, from_be_bytes}
use proto.TinyFrame.Header.{pack_header_byte}
use proto.TinyFrame.Payload.{compress_payload, decompress_payload}
use proto.TinyFrame.Wire.{seal, unseal, build_wire_frame, parse_wire_frame}
use proto.TinyFrame.Stream.{
  read_exact, read_payload, write_all, flush, write_frame_plain, read_frame,
}
use proto.TinyFrame.Stream.Framing.{source}
use proto.TinyFrame.Types.{Frame}
use proto.TinyFrame.Samples.{marking, marking_laws, nonce, eof, idle}
use proto.Dfinder.Protocol.{NodeInfo}
use proto.Dfinder.Store.{Row, lock, list_all, decode_rows, list_by_labels}
use proto.Dfinder.Store.Refines.{node_at}
use proto.Dfinder.Client.{Session, new_client, next_tx_id, query_healthy, register}
use proto.Dfinder.Server.Locked.{find_healthy}
use proto.Dfinder.Server.Handlers.{World, handle_conn, handle_frame, handle_query}
use proto.Dfinder.Server.Answers.{Answers, handle_conn-Answers}
use proto.Dfinder.EndToEnd.{register-handle_conn}
use proto.Dfinder.EndToEnd.Completes.{register_completes}
use proto.Dfinder.EndToEnd.Query.{query_healthy-handle_conn}
use proto.Dfinder.Samples.{rows_db, rows_db_laws, json_samples, json_samples_laws, api, node}
use proto.Dfinder.Runs.{
  store₁, inner₁, session, session', register_run, request_bytes, world, world', handle_conn_run,
  register_frame, read_request, store_node_run,
}

register-handle_conn_example :
    (node_at json_samples rows_db rows_db_laws store₁ "10.0.0.1" ≡ some node)
    × (inner₁.health "10.0.0.1" ≡ some (record { healthy = true; last_ok = 10 }))
register-handle_conn_example =
    register-handle_conn marking marking_laws none nonce refl json_samples json_samples_laws rows_db
      rows_db_laws (ok tt) 9001 api 0 session session' 77 10 "10.0.0.1" eof world world'
      (omega arith) (omega arith) refl register_run handle_conn_run

register_completes_example :
    (w' : World ℕ (List Row)) × (s' : Session ℕ) × (handle_conn marking none nonce json_samples
        rows_db 77 10 "10.0.0.1"
        (source s'.out.written eof)
        world
      ≡ (ok tt, w'))
    × (register marking none nonce json_samples
          (ok tt)
          9001
          api
          0
          (record session { replies = source w'.out.written eof })
        ≡ (ok tt, s'))
    × (w'.inner ≡ inner₁)
register_completes_example =
    register_completes marking marking_laws none nonce refl json_samples json_samples_laws rows_db
      (new_client (λ n. true)) 9001 "api" [] 0 (1 ∷ []) idle 77 10 "10.0.0.1" world inner₁ eof eof
      (omega arith, omega arith) refl (omega arith) refl (omega arith, refl) refl
      (omega arith, refl) store_node_run

handle_conn-Answers_example :
    (reply : Frame) × (read_frame marking none (source world'.out.written eof)
      ≡ ok (reply, source [] eof))
    × (reply.tx_id ≡ 1)
    × (reply.encrypted ≡ false)
    × Answers 1 reply.message_type
handle_conn-Answers_example =
    handle_conn-Answers marking marking_laws none nonce refl json_samples rows_db 77 10 "10.0.0.1"
      (source request_bytes eof) register_frame (source [] eof) world world' eof read_request
      (omega arith) refl handle_conn_run

-- A client that asks for the node after that.
abbrev asking : Session ℕ
asking = record {
  client = new_client (λ n. true);
  out = idle;
  replies = source (32 ∷ 0 ∷ 0 ∷ 0 ∷ 0 ∷ 0 ∷ 0 ∷ 0 ∷ 1 ∷ 0 ∷ 1 ∷ 3 ∷ []) eof;
}

abbrev question : List ℕ
question = 24 ∷ 0 ∷ 0 ∷ 0 ∷ 0 ∷ 0 ∷ 0 ∷ 0 ∷ 1 ∷ 0 ∷ 1 ∷ 2 ∷ []

abbrev asked : Session ℕ
asked = record {
  client = record { health_check = λ n. true; next_tx = 2 };
  out = record idle { written = question; flushed = question; room = 988 };
  replies = source [] eof;
}

query_healthy_run :
    query_healthy marking none nonce json_samples (ok tt) api asking ≡ (ok (node ∷ []), asked)
unfolding query_healthy next_tx_id advance write_frame_plain build_wire_frame pack_header_byte
    compress_payload seal to_be_bytes write_all flush read_frame read_exact read_payload
    from_be_bytes parse_wire_frame unseal decompress_payload
query_healthy_run = refl

abbrev queried : World ℕ (List Row)
queried = record { inner = inner₁; out = idle }

abbrev queried' : World ℕ (List Row)
queried' = record {
  inner = inner₁;
  out = record idle {
    written = 32 ∷ 0 ∷ 0 ∷ 0 ∷ 0 ∷ 0 ∷ 0 ∷ 0 ∷ 1 ∷ 0 ∷ 1 ∷ 3 ∷ [];
    flushed = 32 ∷ 0 ∷ 0 ∷ 0 ∷ 0 ∷ 0 ∷ 0 ∷ 0 ∷ 1 ∷ 0 ∷ 1 ∷ 3 ∷ [];
    room = 988;
  };
}

query_handled :
    handle_conn marking none nonce json_samples rows_db 77 12 "10.0.0.2"
      (source question eof)
      queried
    ≡ (ok tt, queried')
unfolding handle_conn handle_frame handle_query find_healthy list_by_labels list_all decode_rows
    lock write_frame_plain build_wire_frame pack_header_byte compress_payload seal to_be_bytes
    write_all flush read_frame read_exact read_payload from_be_bytes parse_wire_frame unseal
    decompress_payload
query_handled = refl

query_healthy-handle_conn_example :
    (found : List (NodeInfo ℕ)) × (find_healthy json_samples rows_db api inner₁ ≡ ok found)
    × (node ∷ [] ≡ filter asking.client.health_check found)
    × (inner₁ ≡ inner₁)
query_healthy-handle_conn_example =
    query_healthy-handle_conn marking marking_laws none nonce refl json_samples json_samples_laws
      rows_db (ok tt) api asking asked (node ∷ []) 77 12 "10.0.0.2" eof eof queried queried'
      (omega arith) refl refl refl query_healthy_run query_handled
