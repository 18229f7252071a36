-- ===== src/Dfinder/EndToEnd/Completes.antt =====
-- A client and the registry together: a registration that can succeed does.
use proto.Base.{ℕ, ◌+◌, ◌*◌, ◌-◌, ◌≤◌, ◌≡◌, refl, List, [], ◌∷◌, ◌++◌, String, length, ok, arith}
use proto.Base.Counter.{advance, IsTxId}
use proto.TinyFrame.Types.{IoError, nonce_len, u16_max}
use proto.TinyFrame.Codec.{Codec, CodecLaws}
use proto.TinyFrame.Key.{KeyCell}
use proto.TinyFrame.Wire.{frame_bytes}
use proto.TinyFrame.Stream.{Sink}
use proto.TinyFrame.Stream.Framing.{source}
use proto.TinyFrame.Roundtrip.{plain_alone}
use proto.TinyFrame.Errors.{write_frame_plain_total}
use proto.TinyFrame.Total.{Takes}
use proto.Dfinder.Protocol.{Serde, SerdeLaws, msg_register, msg_register_ack}
use proto.Dfinder.Store.{Sqlite}
use proto.Dfinder.Client.{Client, Session, next_tx_id, register}
use proto.Dfinder.Server.State.{Inner}
use proto.Dfinder.Server.Locked.{store_node}
use proto.Dfinder.Server.Handlers.{World, handle_conn, handle_frame, handle_register}

-- The acknowledgement's data.
abbrev ack : List ℕ
ack = b'{' ∷ b'}' ∷ []

-- The stream behind a frame without encryption.
abbrev with_frame : (m tx : ℕ) (input : List ℕ) → Sink → Sink
with_frame m tx input w = record w {
  written = w.written ++ frame_bytes (m * 8) tx input;
  flushed = w.written ++ frame_bytes (m * 8) tx input;
  room = w.room - (length input + 11);
}

module _ (c : Codec) (laws : CodecLaws c) (cell : KeyCell) (nonce : List ℕ)
    (n : length nonce ≡ nonce_len) {E Conn : Type 0} (serde : Serde E) (coding : SerdeLaws serde)
    (db : Sqlite Conn) where
  -- A client that registers with at least one label, on a new connection that takes the bytes of
  -- its request, where the request's JSON encodes, and fits into a frame: if the server's end of the
  -- connection is new too and takes the thirteen bytes of the acknowledgement, and the section under
  -- the server's lock stores the node at the client's address and ends in `g`, then the server
  -- handles the bytes that the client sent without an error and ends in `g`, and the client, which
  -- reads the bytes that the server sent, returns without an error. The id of the client is a
  -- transaction id.
  pub register_completes :
      (client : Client E) (port : ℕ) (label : String) (labels : List String) (extra : E)
      (body : List ℕ) (out : Sink) (secs now : ℕ) (ip : String) (w : World E Conn)
      (g : Inner E Conn) (ending ending' : IoError)
      → IsTxId client.next_tx
      → serde.register_request.encode
          (record { port = port; labels = label ∷ labels; extra = extra })
        ≡ ok body
      → length body ≤ u16_max
      → out.written ≡ []
      → Takes (length body + 11) out
      → w.out.written ≡ []
      → Takes 13 w.out
      → store_node serde db secs now
          (record { ip = ip; port = port; labels = label ∷ labels; extra = extra })
          w.inner
        ≡ ok g
      → (w' : World E Conn) × (s' : Session E) × (handle_conn c cell nonce serde db secs now ip
            (source s'.out.written ending)
            w
          ≡ (ok tt, w'))
        × (register c cell nonce serde
              (ok tt)
              port
              (label ∷ labels)
              extra
              (record { client = client; out = out; replies = source w'.out.written ending' })
            ≡ (ok tt, s'))
        × (w'.inner ≡ g)
  unfolding register next_tx_id handle_conn handle_frame handle_register
  register_completes client port label labels extra body out secs now ip w g ending ending' id
        encoded fits clean room clean' room' stored =
      let sent =
        write_frame_plain_total c cell nonce msg_register client.next_tx body out (omega arith) fits
          room.0 room.1 in
      let replied =
        write_frame_plain_total c cell nonce msg_register_ack client.next_tx ack w.out (omega arith)
          (omega arith) room'.0 room'.1 in
      let out' = with_frame msg_register client.next_tx body out in
      let out'' = with_frame msg_register_ack client.next_tx ack w.out in
      let arrives =
        plain_alone c laws cell nonce n msg_register client.next_tx body out out' ending id.1 clean
          sent in
      let read =
        plain_alone c laws cell nonce n msg_register_ack client.next_tx ack w.out out'' ending' id.1
          clean' replied in
      let decoded =
        coding.register_request.decode_encode
          (record { port = port; labels = label ∷ labels; extra = extra }) body encoded in
      (
        record { inner = g; out = out'' },
        record {
          client = record client { next_tx = advance client.next_tx };
          out = out';
          replies = source [] ending';
        },
        rw (arrives, decoded, stored, replied) refl,
        rw (encoded, sent, read) refl,
        refl,
      )
