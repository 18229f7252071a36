-- ===== src/Dfinder/EndToEnd/Query.antt =====
-- A query, from the client's call through the registry and back.
use proto.Base.{
  ℕ, ◌≡◌, refl, sym, ap, ◌∙◌, false, List, [], String, length, Outcome, ok, map_err, map_err-eq-ok,
  ok-injective, arith,
}
use proto.Base.Exec.{continue-eq-ok}
use proto.Base.Maps.{filter}
use proto.Base.Counter.{IsTxId}
use proto.TinyFrame.Types.{IoError, Frame, nonce_len}
use proto.TinyFrame.Codec.{Codec, CodecLaws}
use proto.TinyFrame.Key.{KeyCell}
use proto.TinyFrame.Stream.{Source, write_frame_plain, read_frame}
use proto.TinyFrame.Stream.Framing.{source}
use proto.TinyFrame.Roundtrip.{sent_frame, plain_alone}
use proto.Dfinder.Protocol.{
  NodeInfo, QueryRequest, QueryResult, Serde, SerdeLaws, msg_query, msg_query_result,
}
use proto.Dfinder.Store.{Sqlite}
use proto.Dfinder.Server.State.{ServerError, io, json}
use proto.Dfinder.Server.Locked.{find_healthy}
use proto.Dfinder.Server.Handlers.{
  World, is_empty, on_stream, handle_query, handle_frame, handle_conn,
}
use proto.Dfinder.Client.{Session, query_healthy}
use proto.Dfinder.EndToEnd.Asked.{query_healthy-eq-ok}

module _ (c : Codec) (cell : KeyCell) (nonce : List ℕ) {E Conn : Type 0} (serde : Serde E)
    (db : Sqlite Conn) where
  written_reply :
      (message_type tx_id : ℕ) (body : List ℕ) (w w' : World E Conn)
      → on_stream (write_frame_plain c cell nonce message_type tx_id body) w ≡ (ok tt, w')
      → (write_frame_plain c cell nonce message_type tx_id body w.out ≡ (ok tt, w'.out))
        × (w.inner ≡ w'.inner)
  written_reply message_type tx_id body w w' e =
      let sent = write_frame_plain c cell nonce message_type tx_id body w.out in
      let fine =
        map_err-eq-ok io sent.0 (ap (λ (p : Outcome ServerError Unit × World E Conn). p.0) e) in
      let after = ap (λ (p : Outcome ServerError Unit × World E Conn). p.1.out) e in
      (λ i. (fine i, after i), ap (λ (p : Outcome ServerError Unit × World E Conn). p.1.inner) e)

  -- A query that the server handled without an error, and that has a label, was answered with the
  -- healthy nodes that were found.
  handle_query_found :
      (frame : Frame) (w w' : World E Conn) (req : QueryRequest)
      → serde.query_request.decode frame.payload ≡ ok req
      → is_empty req.labels ≡ false
      → handle_query c cell nonce serde db frame w ≡ (ok tt, w')
      → (found : List (NodeInfo E)) × (body : List ℕ) × (find_healthy serde db req.labels w.inner
          ≡ ok found)
        × (serde.query_result.encode (record { nodes = found }) ≡ ok body)
        × (write_frame_plain c cell nonce msg_query_result frame.tx_id body w.out ≡ (ok tt, w'.out))
        × (w.inner ≡ w'.inner)
  unfolding handle_query
  handle_query_found frame w w' req decoded labelled e =
      let (found, listed, e₁) =
        continue-eq-ok (find_healthy serde db req.labels w.inner) _ w
          (rw (decoded, labelled) at e) in
      let (body, encoded, e₂) =
        continue-eq-ok (map_err json (serde.query_result.encode (record { nodes = found }))) _ w
          e₁ in
      let (sent, kept) = written_reply msg_query_result frame.tx_id body w w' e₂ in
      (
        found,
        body,
        listed,
        map_err-eq-ok json (serde.query_result.encode (record { nodes = found })) encoded,
        sent,
        kept,
      )

  handle_conn_query :
      (secs now : ℕ) (ip : String) (r : Source) (frame : Frame) (rest : Source)
      (w w' : World E Conn)
      → read_frame c cell r ≡ ok (frame, rest)
      → frame.message_type ≡ msg_query
      → handle_conn c cell nonce serde db secs now ip r w ≡ (ok tt, w')
      → handle_query c cell nonce serde db frame w ≡ (ok tt, w')
  unfolding handle_conn handle_frame
  handle_conn_query secs now ip r frame rest w w' got kind e = ground (arith, got, kind)

module _ (c : Codec) (laws : CodecLaws c) (cell : KeyCell) (nonce : List ℕ)
    (n : length nonce ≡ nonce_len) {E Conn : Type 0} (serde : Serde E) (coding : SerdeLaws serde)
    (db : Sqlite Conn) where
  -- A query that returned nodes, over a new connection of which the registry handled one end
  -- without an error: the nodes are those that `find_healthy` finds in the registry for the client's
  -- labels, in their order, without those that the client's own check turns down; and the registry
  -- is as it was. (The client's id is a transaction id, and what the client reads is what the registry
  -- wrote.)
  pub query_healthy-handle_conn :
      (connected : Outcome IoError (Unit {0})) (labels : List String) (s s' : Session E)
      (nodes : List (NodeInfo E)) (secs now : ℕ) (ip : String) (ending ending' : IoError)
      (w w' : World E Conn)
      → IsTxId s.client.next_tx
      → s.out.written ≡ []
      → w.out.written ≡ []
      → s.replies ≡ source w'.out.written ending'
      → query_healthy c cell nonce serde connected labels s ≡ (ok nodes, s')
      → handle_conn c cell nonce serde db secs now ip (source s'.out.written ending) w ≡ (ok tt, w')
      → (found : List (NodeInfo E)) × (find_healthy serde db labels w.inner ≡ ok found)
        × (nodes ≡ filter s.client.health_check found)
        × (w.inner ≡ w'.inner)
  query_healthy-handle_conn connected labels s s' nodes secs now ip ending ending' w w' id clean
        clean' wired called handled =
      let (labelled, (body, encoded, sent), frame, rest, replied, kind, result, decoded, shown) =
        query_healthy-eq-ok c cell nonce serde connected labels s s' nodes called in
      let arrives =
        plain_alone c laws cell nonce n msg_query s.client.next_tx body s.out s'.out ending id.1
          clean sent in
      let (found, body', listed, encoded', sent', kept) =
        handle_query_found c cell nonce serde db _ w w' (record { labels = labels })
          (coding.query_request.decode_encode (record { labels = labels }) body encoded) labelled
          (handle_conn_query c cell nonce serde db secs now ip _ _ _ w w' arrives refl handled) in
      let back =
        plain_alone c laws cell nonce n msg_query_result s.client.next_tx body' w.out w'.out ending'
          id.1 clean' sent' in
      let is : sent_frame msg_query_result s.client.next_tx body' 0 ≡ frame =
        ap (λ (p : Frame × Source). p.0) (ok-injective (sym back ∙ rw wired at replied)) in
      let payload : body' ≡ frame.payload = ap (λ (f : Frame). f.payload) is in
      let same : record { nodes = found } ≡ result = ok-injective (
        sym (coding.query_result.decode_encode (record { nodes = found }) body' encoded')
        ∙ ap serde.query_result.decode payload
        ∙ decoded) in
      (
        found,
        listed,
        shown ∙ ap (λ (q : QueryResult E). filter s.client.health_check q.nodes) (sym same),
        kept,
      )
