-- ===== src/Dfinder/EndToEnd/Asked.antt =====
-- What a query that returned nodes has sent and read.
use proto.Base.{
  ℕ, ◌==◌, ◌≡◌, refl, sym, ap, ◌∙◌, if◌then◌else◌, Bool, true, false, List, [], ◌∷◌, String,
  Outcome, ok, err, panicked, map_err, map_err-eq-ok, ok-injective,
}
use proto.Base.Exec.{continue, continue-eq-ok}
use proto.Base.Maps.{filter}
use proto.TinyFrame.Types.{IoError, Frame}
use proto.TinyFrame.Codec.{Codec}
use proto.TinyFrame.Key.{KeyCell}
use proto.TinyFrame.Stream.{Source, write_frame_plain, read_frame}
use proto.Dfinder.Protocol.{NodeInfo, QueryResult, Serde, msg_query, msg_query_result}
use proto.Dfinder.Server.Handlers.{is_empty}
use proto.Dfinder.Client
use proto.Dfinder.Client.{
  next_tx_id, take_tx_id, ClientError, Session, received, send, reject, query_healthy,
}
use proto.Dfinder.EndToEnd.{reject-ne-ok, received_out}

module _ (c : Codec) (cell : KeyCell) (nonce : List ℕ) {E : Type 0} (serde : Serde E) where
  received_frame :
      (r : Outcome IoError (Frame × Source)) (s : Session E) (frame : Frame)
      → (received r s).0 ≡ ok frame
      → (rest : Source) × (r ≡ ok (frame, rest))
  received_frame (ok (f, rest)) s frame e =
      (rest, ap (λ (g : Frame). ok (g, rest)) (ok-injective e))
  received_frame (err x) s frame e = cc
  received_frame (panicked p) s frame e = cc

  -- The end of a query that returned nodes.
  answered :
      (b : Bool) (frame : Frame) (check : NodeInfo E → Bool) (t s' : Session E)
      (nodes : List (NodeInfo E))
      → (if b
            then (λ (u : Session E).
                continue
                  (map_err Client.json (serde.query_result.decode frame.payload))
                  (λ result v. (ok (filter check result.nodes), v))
                  u)
            else reject c cell nonce serde frame)
          t
        ≡ (ok nodes, s')
      → (b ≡ true)
        × (t ≡ s')
        × (result : QueryResult E) × (serde.query_result.decode frame.payload ≡ ok result)
        × (nodes ≡ filter check result.nodes)
  answered true frame check t s' nodes e =
      let (result, decoded, last) =
        continue-eq-ok (map_err Client.json (serde.query_result.decode frame.payload)) _ t e in
      (
        refl,
        ap (λ (p : Outcome ClientError (List (NodeInfo E)) × Session E). p.1) last,
        result,
        map_err-eq-ok Client.json (serde.query_result.decode frame.payload) decoded,
        sym (
            ok-injective
              (ap (λ (p : Outcome ClientError (List (NodeInfo E)) × Session E). p.0) last)),
      )
  answered false frame check t s' nodes e = absurd (reject-ne-ok c cell nonce serde frame t e)

  -- A query that returned nodes has sent its request, and read them from the reply.
  pub query_healthy-eq-ok :
      (connected : Outcome IoError (Unit {0})) (labels : List String) (s s' : Session E)
      (nodes : List (NodeInfo E))
      → query_healthy c cell nonce serde connected labels s ≡ (ok nodes, s')
      → (is_empty labels ≡ false)
        × ((body : List ℕ) × (serde.query_request.encode (record { labels = labels }) ≡ ok body)
            × (write_frame_plain c cell nonce msg_query s.client.next_tx body s.out
                ≡ (ok tt, s'.out)))
        × (frame : Frame) × (rest : Source) × (read_frame c cell s.replies ≡ ok (frame, rest))
        × ((frame.message_type == msg_query_result) ≡ true)
        × (result : QueryResult E) × (serde.query_result.decode frame.payload ≡ ok result)
        × (nodes ≡ filter s.client.health_check result.nodes)
  unfolding query_healthy next_tx_id
  query_healthy-eq-ok connected [] s s' nodes e = cc
  query_healthy-eq-ok connected (l ∷ labels) s s' nodes e =
      let write = write_frame_plain c cell nonce msg_query s.client.next_tx in
      let s₁ : Session E = (take_tx_id s).1 in
      let (_, _, e₁) = continue-eq-ok (map_err Client.io connected) _ s₁ e in
      let (body, encoded, e₂) =
        continue-eq-ok
          (map_err Client.json (serde.query_request.encode (record { labels = l ∷ labels }))) _ s₁
          e₁ in
      let s₂ : Session E = record s₁ { out = (write body s.out).1 } in
      let (_, written, e₃) = continue-eq-ok (map_err Client.io (write body s.out).0) _ s₂ e₂ in
      let reply = read_frame c cell s.replies in
      let (frame, got, e₄) = continue-eq-ok (received reply s₂).0 _ (received reply s₂).1 e₃ in
      let (rest, read) = received_frame reply s₂ frame got in
      let (kind, last, result, decoded, shown) =
        answered (frame.message_type == msg_query_result) frame s.client.health_check
          (received reply s₂).1 s' nodes e₄ in
      let out : (write body s.out).1 ≡ s'.out =
        sym (received_out c cell nonce serde reply s₂ frame got)
        ∙ ap (λ (t : Session E). t.out) last in
      let fine = map_err-eq-ok Client.io (write body s.out).0 written in
      (
        refl,
        (
          body,
          map_err-eq-ok Client.json (serde.query_request.encode (record { labels = l ∷ labels }))
              encoded,
          λ i. (fine i, out i),
        ),
        frame,
        rest,
        read,
        kind,
        result,
        decoded,
        shown,
      )
