-- ===== src/Go/Client/Forwarding.antt =====
-- promproxy/client.go at one end of a connection and src/prom_proxy/server.rs at the other.
use proto.Base.{
  ℕ, ◌≡◌, refl, sym, ap, ◌∙◌, true, List, [], ◌∷◌, ◌++◌, append-nil, String, Option, some, length,
  Outcome, ok, err, panicked, ◌==◌, Bool-cases, inl, inr, arith,
}
use proto.Base.Agreement.{ok-Agrees}
use proto.Base.Counter.{IsTxId}
use proto.Base.Results
use proto.Base.Json.{CoderLaws}
use proto.TinyFrame.Types.{IoError, IsU64, nonce_len, chacha20poly1305}
use proto.TinyFrame.Types
use proto.TinyFrame.Codec.{CodecLaws}
use proto.TinyFrame.Codec
use proto.TinyFrame.Key.{KeyCell}
use proto.TinyFrame.Payload
use proto.TinyFrame.Wire
use proto.TinyFrame.Stream.{Source, read_frame}
use proto.TinyFrame.Stream
use proto.TinyFrame.Stream.Framing.{source}
use proto.TinyFrame.Roundtrip.{sent_frame}
use proto.PromProxy.Protocol.{Serde}
use proto.PromProxy.Protocol
use proto.PromProxy.Edge.{Redis}
use proto.PromProxy.Server.State.{
  Inner, World, Response, ServerError, remote_write_request, accepted,
}
use proto.PromProxy.Server.{handle_frame, handle_conn, answer, write_error, forward_frame}
use proto.PromProxy.Server.Answers.{handle_frame-Answered}
use proto.PromProxy.Server.Forwarding.{judge-eq-ok, handle_conn-handle_frame, acknowledged_status}
use proto.Go.Frame.Types.{Error}
use proto.Go.Frame.Codec.{Codec}
use proto.Go.Frame.Agrees.{as_error, as_codec}
use proto.Go.Frame.Agrees.Reading.{SameFrame, read_frame_with_key-Agrees}
use proto.Go.Frame.Interop.{between, read_between, reader, read_frame-write_frame_with_key}
use proto.Go.Client.{Unmarshal, RemoteWriteAck, Session, remote_write}
use proto.Go.Client.Sent.{go_remote_write-eq-ok, decode_response-ack}

-- What serde_json wrote as an acknowledgement, `json.Unmarshal` reads.
abbrev pub ReadsAcks : Unmarshal → Serde → Type 0
ReadsAcks json serde =
    (status : ℕ) (body : List ℕ)
    → serde.remote_write_ack.encode (record { status = status }) ≡ ok body
    → json.remote_write_ack body ≡ ok (record { status = status })

-- The proxy's encoders with the Go client's decoder.
abbrev as_ack : RemoteWriteAck → Protocol.RemoteWriteAck
as_ack a = record { status = a.status }

abbrev mixed_json : Unmarshal → Serde → Serde
mixed_json json serde = record {
  remote_write_ack = record {
    encode = serde.remote_write_ack.encode;
    decode = λ body. Results.◌>>=◌ (json.remote_write_ack body) (λ a. ok (as_ack a));
  };
  error_body = serde.error_body;
}

mixed_json_laws :
    (json : Unmarshal) (serde : Serde)
    → ReadsAcks json serde
    → CoderLaws (mixed_json json serde).remote_write_ack
mixed_json_laws json serde reads = record {
  decode_encode = λ a body e. rw (reads a.status body e) refl;
}

module _ (c d : Codec.Codec) (cell : KeyCell) (nonce : List ℕ) (json : Unmarshal) (serde : Serde)
    (io_text : IoError → String) {RedisClient Conn Db : Type 0} (server : Redis RedisClient Conn Db)
    (state : Inner Conn) where
  -- The handler only writes: how its client reads does not matter to it.
  answer-between :
      (frame : Types.Frame) (r : Outcome ServerError ℕ) (w : World Db)
      → answer (between c d) cell nonce (mixed_json json serde) io_text server state frame r w
        ≡ answer c cell nonce serde io_text server state frame r w
  unfolding answer write_error Stream.write_frame Wire.build_wire_frame Wire.seal
      Payload.compress_payload Payload.encrypt_payload
  answer-between frame (ok status) w = refl
  answer-between frame (err e) w = refl
  answer-between frame (panicked p) w = refl

  handle_frame-between :
      (frame : Types.Frame) (w : World Db)
      → handle_frame (between c d) cell nonce (mixed_json json serde) io_text server state frame w
        ≡ handle_frame c cell nonce serde io_text server state frame w
  unfolding handle_frame write_error Stream.write_frame Wire.build_wire_frame Wire.seal
      Payload.compress_payload Payload.encrypt_payload
  handle_frame-between frame w =
      elim (Bool-cases (frame.message_type == state.config.message_type)) [
        | inl same ↦
            rw same
              (answer-between frame (forward_frame state frame w).0 (forward_frame state frame w).1)
        | inr other ↦ rw other refl
      ]

module _ (g : Codec) (c : Codec.Codec) (to : CodecLaws (between (as_codec g) c))
    (back : CodecLaws (between c (as_codec g))) (key nonce nonce' : List ℕ)
    (n : length nonce ≡ nonce_len) (n' : length nonce' ≡ nonce_len) (json : Unmarshal)
    (serde : Serde) (reads : ReadsAcks json serde) (io_text : IoError → String)
    {RedisClient Conn Db : Type 0} (server : Redis RedisClient Conn Db) (state : Inner Conn) where
  -- A remote write of the Go client that returned a status, over a new connection of which the Rust
  -- proxy handled one end without an error: the proxy sent one request, a POST of exactly the
  -- client's bytes to its Prometheus, and the status is that of the response, which is one of
  -- success. (Both have the same key, the client's id is a transaction id, what the client reads is
  -- what the proxy wrote, each side's codecs unpack what the other's packed, and Go reads the JSON
  -- of an acknowledgement as the proxy wrote it.)
  pub go_remote_write-handle_conn :
      (cancelled : Option String) (dialled : Outcome Error (Unit {0})) (body : List ℕ)
      (s s' : Session) (status : ℕ) (w w' : World Db) (ending : IoError) (ending' : Error)
      → IsTxId s.client.next_tx
      → s.client.key ≡ key
      → s.out.written ≡ []
      → w.out.written ≡ []
      → s.replies ≡ reader w'.out.written ending'
      → remote_write g (ok nonce') json cancelled dialled body s ≡ (ok status, s')
      → handle_conn c
          (some (some key))
          nonce
          serde
          io_text
          server
          state
          (source s'.out.written ending)
          w
        ≡ (ok tt, w')
      → (w'.requests ≡ w.requests ++ remote_write_request state.config.prometheus_url body ∷ [])
        × (resp : Response) × (state.http w.requests
              (remote_write_request state.config.prometheus_url body)
            ≡ ok resp)
        × (resp.status ≡ status)
        × (accepted status ≡ true)
  go_remote_write-handle_conn cancelled dialled body s s' status w w' ending ending' id keyed clean
        clean' wired called handled =
      let d = as_codec g in
      let cell : KeyCell = some (some key) in
      let (sent, reply, rest, replied, decoded) =
        go_remote_write-eq-ok g (ok nonce') json cancelled dialled body s s' status called in
      let (kind, ack) = decode_response-ack json reply status decoded in
      let frame = sent_frame s.client.message_type s.client.next_tx body chacha20poly1305 in
      let (buf, behind, read) =
        read_frame-write_frame_with_key g c key nonce' n' to s.client.message_type s.client.next_tx
          body chacha20poly1305 s.out s'.out [] ending (omega arith) id.1 (rw keyed at sent) in
      let all : s'.out.written ≡ buf ++ [] =
        behind ∙ ap (λ xs. xs ++ buf) clean ∙ sym (append-nil buf) in
      let arrives : read_frame c cell (source s'.out.written ending)
          ≡ ok (frame, source [] ending) =
        rw all read in
      let answered =
        handle_frame-Answered (between c d) cell nonce (mixed_json json serde) io_text server state
          frame w w'
          (handle_frame-between c d cell nonce json serde io_text server state frame w
            ∙ handle_conn-handle_frame c cell nonce serde io_text server state
                (source s'.out.written ending) frame _ w w' arrives handled) in
      let bytes = source w'.out.written (as_error ending') in
      let ((reply', rest'), got, same) =
        ok-Agrees SameFrame _ _ (reply, rest)
          (read_frame_with_key-Agrees g key (reader w'.out.written ending') bytes refl)
          (rw (wired, keyed) at replied) in
      let payload : reply.payload ≡ reply'.payload = ap (λ (f : Types.Frame). f.payload) same.0 in
      let decode = (mixed_json json serde).remote_write_ack.decode in
      let ack' : decode reply'.payload ≡ ok (record { status = status }) =
        ap decode (sym payload) ∙ rw ack refl in
      let (requests, judged) =
        acknowledged_status (between c d) back cell nonce n (mixed_json json serde)
          (mixed_json_laws json serde reads) io_text server state frame w w' reply' rest'
          (as_error ending') status id.1 clean' answered (read_between c d cell bytes ∙ got)
          (sym (ap (λ (f : Types.Frame). f.message_type) same.0) ∙ kind) ack' in
      let (resp, response, code, good) = judge-eq-ok _ status judged in
      (requests, resp, response, code, good)
