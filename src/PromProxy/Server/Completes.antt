-- ===== src/PromProxy/Server/Completes.antt =====
-- A client and the proxy together: a remote write that can succeed does.
use proto.Base.{
  ℕ, ◌+◌, ◌<◌, ◌≤◌, ◌==◌, ==_iff, ◌≡◌, refl, ap, ◌∙◌, true, some, List, [], ◌∷◌, ◌++◌, String,
  length, ok, arith,
}
use proto.Base.Counter.{advance, IsTxId}
use proto.TinyFrame.Types.{IoError, nonce_len, chacha20poly1305}
use proto.TinyFrame.Codec.{Codec, CodecLaws}
use proto.TinyFrame.Key.{KeyCell}
use proto.TinyFrame.Stream.{Source, Sink, write_frame, read_frame}
use proto.TinyFrame.Stream.Framing.{source}
use proto.TinyFrame.Roundtrip.{sent_frame, written_alone}
use proto.TinyFrame.Total.{max_encrypted, Encrypts, Takes, with_bytes, write_encrypted_total}
use proto.PromProxy.Protocol.{Serde, SerdeLaws, msg_remote_write_ack}
use proto.PromProxy.Edge.{Redis, incr}
use proto.PromProxy.Client.{Client, Session, next_tx_id, decode_response, remote_write}
use proto.PromProxy.Server.State.{Inner, World, Response, remote_write_request, accepted}
use proto.PromProxy.Server.{
  judge, post_remote_write, forward_frame, incr_edge, answer, handle_frame, handle_conn,
}

judge-accepted : (resp : Response) → accepted resp.status ≡ true → judge (ok resp) ≡ ok resp.status
unfolding judge
judge-accepted resp good = rw good refl

module _ (c : Codec) (laws : CodecLaws c) (key nonce nonce' : List ℕ) (n : length nonce ≡ nonce_len)
    (n' : length nonce' ≡ nonce_len) (encrypts : Encrypts c key nonce)
    (encrypts' : Encrypts c key nonce') (serde : Serde) (coding : SerdeLaws serde)
    (io_text : IoError → String) {RedisClient Conn Db : Type 0} (server : Redis RedisClient Conn Db)
    (state : Inner Conn) where
  -- The proxy's part.
  answers :
      (frame_source : Source) (tx : ℕ) (body ack : List ℕ) (rest : Source) (w : World Db)
      (resp : Response)
      → read_frame c (some (some key)) frame_source
        ≡ ok (sent_frame state.config.message_type tx body chacha20poly1305, rest)
      → state.http w.requests (remote_write_request state.config.prometheus_url body) ≡ ok resp
      → accepted resp.status ≡ true
      → serde.remote_write_ack.encode (record { status = resp.status }) ≡ ok ack
      → length ack ≤ max_encrypted
      → Takes (length ack + 39) w.out
      → (w' : World Db) × (handle_conn c
            (some (some key))
            nonce
            serde
            io_text
            server
            state
            frame_source
            w
          ≡ (ok tt, w'))
        × (write_frame c (some (some key)) nonce msg_remote_write_ack tx ack chacha20poly1305 w.out
            ≡ (ok tt, w'.out))
  unfolding handle_conn handle_frame answer forward_frame post_remote_write incr_edge
  answers frame_source tx body ack rest w resp read response good encoded fits room =
      let (buf, sent) =
        write_encrypted_total c laws key nonce n encrypts msg_remote_write_ack tx ack w.out
          (omega arith) fits room in
      let own : (state.config.message_type == state.config.message_type) ≡ true =
        (==_iff state.config.message_type state.config.message_type).1 refl in
      let request = remote_write_request state.config.prometheus_url body in
      let judged : judge (state.http w.requests request) ≡ ok resp.status =
        ap judge response ∙ judge-accepted resp good in
      (
        record {
          db = (incr server state.edges "remote_write_ok" 1 w.db).1;
          requests = w.requests ++ request ∷ [];
          out = with_bytes buf w.out;
        },
        rw (read, own, judged, encoded, sent) refl,
        sent,
      )

  -- The client's part.
  returns :
      (client : Client) (out out' : Sink) (body ack : List ℕ) (status tx : ℕ)
      (replies rest : Source)
      → write_frame c
          (some (some key))
          nonce'
          client.message_type
          client.next_tx
          body
          chacha20poly1305
          out
        ≡ (ok tt, out')
      → read_frame c (some (some key)) replies
        ≡ ok (sent_frame msg_remote_write_ack tx ack chacha20poly1305, rest)
      → serde.remote_write_ack.encode (record { status = status }) ≡ ok ack
      → (s' : Session) × (remote_write c
            (some (some key))
            nonce'
            serde
            (ok tt)
            body
            (record { client = client; out = out; replies = replies })
          ≡ (ok status, s'))
        × (s'.out ≡ out')
  unfolding remote_write next_tx_id decode_response
  returns client out out' body ack status tx replies rest sent read encoded = (
    record {
      client = record client { next_tx = advance client.next_tx };
      out = out';
      replies = rest;
    },
    rw (sent, read, coding.remote_write_ack.decode_encode (record { status = status }) ack encoded)
        refl,
    refl,
  )

  -- A remote write that can come off does. The client and the proxy have the same key and message
  -- type, the body and the JSON of the acknowledgement fit into frames, both streams are new and
  -- take what has to be sent, the cipher does not fail, and the upstream answers the request with a
  -- status of success: then the proxy handles what the client has sent without an error, whatever
  -- becomes of its counters, and the client, which reads what the proxy has written, returns the
  -- upstream's status.
  pub remote_write_completes :
      (client : Client) (out : Sink) (body ack : List ℕ) (w : World Db) (resp : Response)
      (ending ending' : IoError)
      → IsTxId client.next_tx
      → client.message_type ≡ state.config.message_type
      → client.message_type < 32
      → length body ≤ max_encrypted
      → out.written ≡ []
      → Takes (length body + 39) out
      → w.out.written ≡ []
      → state.http w.requests (remote_write_request state.config.prometheus_url body) ≡ ok resp
      → accepted resp.status ≡ true
      → serde.remote_write_ack.encode (record { status = resp.status }) ≡ ok ack
      → length ack ≤ max_encrypted
      → Takes (length ack + 39) w.out
      → (w' : World Db) × (s' : Session) × (handle_conn c
            (some (some key))
            nonce
            serde
            io_text
            server
            state
            (source s'.out.written ending)
            w
          ≡ (ok tt, w'))
        × (remote_write c
              (some (some key))
              nonce'
              serde
              (ok tt)
              body
              (record { client = client; out = out; replies = source w'.out.written ending' })
            ≡ (ok resp.status, s'))
  remote_write_completes client out body ack w resp ending ending' id types small fits clean room
        clean' response good encoded fits' room' =
      let cell : KeyCell = some (some key) in
      let (buf, sent) =
        write_encrypted_total c laws key nonce' n' encrypts' client.message_type client.next_tx body
          out small fits room in
      let out' = with_bytes buf out in
      let arrives =
        written_alone c laws cell nonce' n' client.message_type client.next_tx body chacha20poly1305
          out out' ending (omega arith) id.1 clean sent in
      let (w', handled, replied) =
        answers (source out'.written ending) client.next_tx body ack (source [] ending) w resp
          (rw (← types) arrives) response good encoded fits' room' in
      let read =
        written_alone c laws cell nonce n msg_remote_write_ack client.next_tx ack chacha20poly1305
          w.out w'.out ending' (omega arith) id.1 clean' replied in
      let (s', called, same) =
        returns client out out' body ack resp.status client.next_tx (source w'.out.written ending')
          (source [] ending') sent read encoded in
      (
        w',
        s',
        ap
              (λ (o : Sink).
                handle_conn c cell nonce serde io_text server state (source o.written ending) w)
              same
            ∙ handled,
        called,
      )
