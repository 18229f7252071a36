-- ===== src/PromProxy/Server/Tests.antt =====
-- The counters of the proxy and their report, on concrete data.
use proto.Base.{ℕ, ◌≡◌, refl, List, [], ◌∷◌, ◌++◌, String, some, ok, ◌⊎◌}
use proto.Base.Integers.{pos}
use proto.PromProxy.Edge.{totals, not_negative}
use proto.PromProxy.Encode.{Float, Prost, encode_write_request}
use proto.PromProxy.Protocol.{prepare_remote_write_body}
use proto.PromProxy.Server.State.{World, remote_write_request}
use proto.PromProxy.Server.{judge, post_remote_write, edge_series, flush_totals, flush_edges}
use proto.PromProxy.Server.Flush.{Reported, flush_edges_reported}
use proto.PromProxy.Tests.{state, upstream_url, world'}
use proto.PromProxy.Samples.{one_hash, edges, Fields}

abbrev pub numbers : Float ℕ
numbers = record { from_u64 = λ n. n; display = λ n. "1" }

abbrev pub one_byte : Prost ℕ
one_byte written = ok (1 ∷ [])

abbrev flushed : World Fields
flushed = record world' {
  requests = world'.requests ++ remote_write_request upstream_url (1 ∷ []) ∷ [];
}

flush_run :
    flush_edges numbers one_byte (λ b. some b) one_hash state (pos 5) world' ≡ (ok tt, flushed)
unfolding flush_edges flush_totals totals not_negative edge_series encode_write_request
    prepare_remote_write_body post_remote_write judge
flush_run = refl

flush_edges_reported_example :
    (entries : List (String × ℕ)) × (totals one_hash edges world'.db ≡ (ok entries, flushed.db))
    × (((entries ≡ []) × (flushed.requests ≡ world'.requests))
        ⊎ Reported numbers one_byte (λ b. some b) state (pos 5) entries world' flushed)
    × (flushed.out ≡ world'.out)
flush_edges_reported_example =
    flush_edges_reported numbers one_byte (λ b. some b) one_hash state (pos 5) world' flushed
      flush_run
