-- ===== src/Go/Command/Get/Answered.antt =====
-- cmd/tframe at one end of a connection and a server that uses src/tiny_frame.rs at the other.
use proto.Base.{
  ℕ, ◌≡◌, ◌≢◌, refl, sym, ap, ◌∙◌, false, Bool-cases, ◌⊎◌, inl, inr, List, [], ◌++◌, append-nil,
  length, String, some, Outcome, ok, ok-injective, arith,
}
use mathlib.Core.Path.{subst}
use proto.Base.Integers.{pos}
use proto.TinyFrame.Types.{IoError, IsU8, IsU64, nonce_len}
use proto.TinyFrame.Types
use proto.TinyFrame.Codec.{CodecLaws}
use proto.TinyFrame.Codec
use proto.TinyFrame.Header.{compress_id_of}
use proto.TinyFrame.Stream.{Source, Sink}
use proto.TinyFrame.Stream
use proto.TinyFrame.Stream.Framing.{source}
use proto.TinyFrame.Roundtrip.{sent_frame}
use proto.Go.Frame.Types.{Error, Frame, chacha20poly1305, compress_none}
use proto.Go.Frame.Codec.{Codec}
use proto.Go.Frame.Stream.{Reader}
use proto.Go.Frame.Agrees.{as_codec, as_frame}
use proto.Go.Frame.Interop.{
  between, reader, read_frame-write_frame_with_key, read_frame_with_key-write_frame,
}
use proto.Go.Command.Manifest.{
  ApiRoute, Manifest, find_route, parse_secret_key, validate_response_compression,
}
use proto.Go.Command.Get.{Url, World, parse_tcp_url, set_key, do_get}
use proto.Go.Command.Get.Stages.{do_get-Decided, ask-eq-ok}

validate-compressed :
    (route : ApiRoute) (method : String) (flag : ℕ)
    → validate_response_compression route method flag ≡ ok tt
    → (route.compressed ≡ false) ⊎ (flag ≢ compress_none)
unfolding validate_response_compression
validate-compressed route method flag e = elim (Bool-cases route.compressed) [
  | inl compressed ↦ inr (ground (arith, e, compressed))
  | inr free ↦ inl free
]

module _ (g : Codec) (c : Codec.Codec) (to : CodecLaws (between (as_codec g) c))
    (back : CodecLaws (between c (as_codec g))) (key nonce nonce' : List ℕ)
    (n : length nonce ≡ nonce_len) (n' : length nonce' ≡ nonce_len) where
  -- A `tframe get` that succeeded, over a connection on which the server wrote one frame with
  -- `write_frame` of the crate under the manifest's key: the URL has a host and a path, the path has
  -- a route in the manifest, the server can read from the connection one encrypted, empty frame of
  -- the route's type with the command's transaction id and nothing behind it, and the data of the
  -- server's frame is what was added to the output; where the route asks for compression, the
  -- server's frame was compressed. (Each side's codecs unpack what the other's packed.)
  pub do_get-write_frame :
      (parse : String → Outcome String Url) (dial : String → Outcome Error (Unit {0})) (tx : ℕ)
      (raw_url : String) (m : Manifest) (w w' : World) (kind reply_tx : ℕ) (payload : List ℕ)
      (flags : ℕ) (out out' : Sink) (ending : IoError) (ending' : Error)
      → parse_secret_key m ≡ ok key
      → IsU64 tx
      → w.request.written ≡ []
      → IsU8 flags
      → IsU64 reply_tx
      → out.written ≡ []
      → Stream.write_frame c (some (some key)) nonce kind reply_tx payload flags out ≡ (ok tt, out')
      → w.response ≡ reader out'.written ending'
      → do_get g (ok nonce') parse dial tx raw_url m w ≡ (ok tt, w')
      → (host : String) × (path : String) × (route : ApiRoute) × (message_type : ℕ) × (parse_tcp_url
            parse raw_url
          ≡ ok (host, path))
        × (find_route m path ≡ ok route)
        × (route.message_type ≡ pos message_type)
        × (Stream.read_frame c (some (some key)) (source w'.request.written ending)
            ≡ ok (sent_frame message_type tx [] chacha20poly1305, source [] ending))
        × (w'.output.written ≡ w.output.written ++ payload)
        × ((route.compressed ≡ false) ⊎ (compress_id_of flags ≢ compress_none))
  do_get-write_frame parse dial tx raw_url m w w' kind reply_tx payload flags out out' ending
        ending' keyed ht clean hf hr empty sent wired got =
      let (host, path, route, message_type, key', flag, d, asked) =
        do_get-Decided g (ok nonce') parse dial tx raw_url m w w' got in
      let same : key' ≡ key = ok-injective (sym d.key_is ∙ keyed) in
      let (request, reply, rest, read, valid, printed) =
        ask-eq-ok g (ok nonce') key' route message_type m.api.compress_method tx w.key
          (set_key key' w).1 w' refl asked in
      let (buf, behind, arrives) =
        read_frame-write_frame_with_key g c key nonce' n' to message_type tx [] chacha20poly1305
          w.request w'.request [] ending (omega arith) ht (rw same at request) in
      let (buf', behind', frame, rest', read', is, _) =
        read_frame_with_key-write_frame g c key nonce n back kind reply_tx payload flags out out' []
          ending' hf hr sent in
      let all : w'.request.written ≡ buf ++ [] =
        behind ∙ ap (λ xs. xs ++ buf) clean ∙ sym (append-nil buf) in
      let stream : w.response ≡ reader (buf' ++ []) ending' =
        wired
        ∙ ap (λ xs. reader xs ending')
            (behind' ∙ ap (λ xs. xs ++ buf') empty ∙ sym (append-nil buf')) in
      let frames : frame ≡ reply =
        ap (λ (p : Frame × Reader). p.0) (ok-injective (sym read' ∙ rw (same, stream) at read)) in
      let as_sent : as_frame reply ≡ sent_frame kind reply_tx payload flags =
        ap as_frame (sym frames) ∙ is in
      let checked = validate-compressed route m.api.compress_method reply.compress_id valid in
      (
        host,
        path,
        route,
        message_type,
        d.parsed,
        d.routed,
        d.typed,
        rw all arrives,
        printed ∙ ap (λ (f : Types.Frame). w.output.written ++ f.payload) as_sent,
        subst (λ id. (route.compressed ≡ false) ⊎ (id ≢ compress_none))
            (ap (λ (f : Types.Frame). f.compress_id) as_sent) checked,
      )
