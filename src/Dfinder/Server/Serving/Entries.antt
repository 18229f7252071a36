-- ===== src/Dfinder/Server/Serving/Entries.antt =====
-- The health map of the server as it runs.
use proto.Base.{ℕ, ◌≡◌, List, [], String, ok}
use proto.TinyFrame.Codec.{Codec}
use proto.TinyFrame.Key.{KeyCell}
use proto.Dfinder.Protocol.{Serde, SerdeLaws}
use proto.Dfinder.Store.{Sqlite}
use proto.Dfinder.Store.Table.{SqliteLaws}
use proto.Dfinder.Store.Refines.{node_at}
use proto.Dfinder.Server.State.{ServerConfig, Server, new}
use proto.Dfinder.Server.Interleaving.{resting}
use proto.Dfinder.Server.Interleaving.Tracked.{Tracked, new-Reach-Tracked}
use proto.Dfinder.Server.Serving.{Process, binding, Runs}
use proto.Dfinder.Server.Serving.Moments.{Runs-Reach}

module _ (c : Codec) (cell : KeyCell) (nonce : List ℕ) {E Conn : Type 0} (serde : Serde E)
    (coding : SerdeLaws serde) (db : Sqlite Conn) (table : SqliteLaws db) where
  -- From a server that has just been made, however the accept loop, the tasks of the connections and
  -- the probe take turns, whatever frames arrive, and whatever the probes answer and the statements
  -- report: every node that can be listed has an entry in the health map.
  pub new-Runs-Tracked :
      (now : ℕ) (config : ServerConfig E) (server : Server E Conn) (p : Process E Conn)
      (ip : String)
      → new serde db now config ≡ ok server
      → Runs c cell nonce serde db
          (record {
            system = record { inner = server.inner; phase = resting };
            tasks = [];
            stage = binding;
          })
          p
      → Tracked (node_at serde db table p.system.inner.store ip) (p.system.inner.health ip)
  new-Runs-Tracked now config server p ip made runs =
      new-Reach-Tracked serde coding db table now config server p.system ip made
        (Runs-Reach c cell nonce serde coding db runs)
