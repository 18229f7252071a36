-- ===== src/Dfinder/Server/Serving/Sections.antt =====
-- The section of a handler under the lock, as a step of the registry.
use proto.Base.{
  ℕ, ◌==◌, ◌<◌, ◌^◌, ◌≡◌, String, Outcome, ok, ◌⊎◌, inl, inr, Bool-cases, Outcome-cases, arith,
}
use mathlib.Core.Path.{subst}
use proto.TinyFrame.Types.{Frame}
use proto.Dfinder.Protocol.{NodeInfo, Serde, SerdeLaws, msg_register, msg_query}
use proto.Dfinder.Store.{Sqlite}
use proto.Dfinder.Server.State.{ServerError, Inner}
use proto.Dfinder.Server.Locked.{store_node}
use proto.Dfinder.Server.Handlers.{is_empty}
use proto.Dfinder.Server.Interleaving.{System, register, Reach, here, next}
use proto.Dfinder.Server.Serving.{Reply, error_reply, respond_register, respond_query, respond}

module _ {E Conn : Type 0} (serde : Serde E) (db : Sqlite Conn) where
  -- The section of a registration stores a node whose port fits, or changes nothing.
  abbrev Stores : (secs now : ℕ) (g g' : Inner E Conn) → Type 0
  Stores secs now g g' =
      (g ≡ g')
      ⊎ ((node : NodeInfo E) × (node.port < 2 ^ 16) × (store_node serde db secs now node g ≡ ok g'))

  error_reply_keeps :
      (tx_id : ℕ) (message : String) (g g' : Inner E Conn) (r : Outcome ServerError Reply)
      → error_reply serde db tx_id message g ≡ (r, g')
      → g ≡ g'
  error_reply_keeps tx_id message g g' r e = ground arith

  respond_query_keeps :
      (frame : Frame) (g g' : Inner E Conn) (r : Outcome ServerError Reply)
      → respond_query serde db frame g ≡ (r, g')
      → g ≡ g'
  unfolding respond_query
  respond_query_keeps frame g g' r e = ground arith

module _ {E Conn : Type 0} (serde : Serde E) (coding : SerdeLaws serde) (db : Sqlite Conn) where
  respond_register-Stores :
      (secs now : ℕ) (ip : String) (frame : Frame) (g g' : Inner E Conn)
      (r : Outcome ServerError Reply)
      → respond_register serde db secs now ip frame g ≡ (r, g')
      → Stores serde db secs now g g'
  unfolding respond_register
  respond_register-Stores secs now ip frame g g' r e =
      elim (Outcome-cases (serde.register_request.decode frame.payload)) [
        | inl (req, got) ↦
            let node : NodeInfo E = record {
              ip = ip;
              port = req.port;
              labels = req.labels;
              extra = req.extra;
            } in
            let fits = coding.port_fits frame.payload req got in
            elim (Bool-cases (is_empty req.labels)) [
              | inl none_given ↦ inl (
                  error_reply_keeps serde db frame.tx_id "register requires >= 1 label" g g' r
                    (rw (got, none_given) at e))
              | inr some_given ↦ elim (Outcome-cases (store_node serde db secs now node g)) [
                | inl (g₁, stored) ↦ inr (node, fits, ground arith)
                | inr (inl (x, failed)) ↦ inl (ground arith)
                | inr (inr (p, failed)) ↦ inl (ground arith)
              ]
            ]
        | inr (inl (x, bad)) ↦ inl (ground arith)
        | inr (inr (p, bad)) ↦ inl (ground arith)
      ]

  respond-Stores :
      (secs now : ℕ) (ip : String) (frame : Frame) (g g' : Inner E Conn)
      (r : Outcome ServerError Reply)
      → respond serde db secs now ip frame g ≡ (r, g')
      → Stores serde db secs now g g'
  unfolding respond
  respond-Stores secs now ip frame g g' r e =
      elim (Bool-cases (frame.message_type == msg_register)) [
        | inl registers ↦ respond_register-Stores secs now ip frame g g' r (rw registers at e)
        | inr other ↦ elim (Bool-cases (frame.message_type == msg_query)) [
          | inl queries ↦ inl (respond_query_keeps serde db frame g g' r (rw (other, queries) at e))
          | inr unknown ↦
              inl (error_reply_keeps serde db frame.tx_id _ g g' r (rw (other, unknown) at e))
        ]
      ]

  -- The section of a handler is at most one step of the registry.
  pub respond-Reach :
      (secs now : ℕ) (ip : String) (frame : Frame) (s : System E Conn) (g' : Inner E Conn)
      (r : Outcome ServerError Reply)
      → respond serde db secs now ip frame s.inner ≡ (r, g')
      → Reach serde db s (record s { inner = g' })
  respond-Reach secs now ip frame s g' r e =
      elim (respond-Stores secs now ip frame s.inner g' r e) [
        | inl same ↦ subst (λ g. Reach serde db s (record s { inner = g })) same here
        | inr (node, fits, stored) ↦
            next here (register s.inner g' s.phase secs now node fits stored)
      ]
