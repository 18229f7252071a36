-- ===== src/PromProxy/Server/Flush.antt =====
-- src/prom_proxy/server.rs: the report of the counters.
use proto.Base.{
  ℕ, ◌≡◌, ◌≢◌, ◌∙◌, true, refl, sym, ap, List, [], ◌∷◌, ◌++◌, map, String, some, none, Option,
  Outcome, ok, ◌⊎◌, inl, inr, map_err, map_err-eq-ok, ok-injective,
}
use proto.Base.Exec.{continue-eq-ok}
use proto.Base.Integers.{ℤ}
use proto.PromProxy.Protocol.{Snappy, expect_compressed, prepare_remote_write_body}
use proto.PromProxy.Edge.{Redis, totals}
use proto.PromProxy.Encode.{Prost, Float, TimeSeries, label, encode_write_request}
use proto.PromProxy.Server.State.{
  ServerError, encode, edge, Inner, World, Response, remote_write_request, accepted,
}
use proto.PromProxy.Server.Forwarding.{judge-eq-ok}
use proto.PromProxy.Server.{post_remote_write, edge_series, flush_totals, flush_edges}

expect_compressed-eq-ok :
    (packed : Option (List ℕ)) (body : List ℕ)
    → ◌≡◌ {A = Outcome ServerError (List ℕ)} (expect_compressed packed) (ok body)
    → packed ≡ some body
expect_compressed-eq-ok none body e = cc
expect_compressed-eq-ok (some b) body e = ap some (ok-injective e)

prepare_remote_write_body-eq-ok :
    (snappy : Snappy) (protobuf body : List ℕ)
    → ◌≡◌ {A = Outcome ServerError (List ℕ)} (prepare_remote_write_body snappy protobuf) (ok body)
    → snappy protobuf ≡ some body
unfolding prepare_remote_write_body
prepare_remote_write_body-eq-ok snappy protobuf body e =
    expect_compressed-eq-ok (snappy protobuf) body e

module _ {F : Type 0} (float : Float F) where
  -- The series of a counter: its name, its key, and its total at this time.
  abbrev pub total_series : (now : ℤ) → String × ℕ → TimeSeries F
  total_series now (key, total) = record {
    labels = label "__name__" "prom_proxy_edge_total" ∷ label "key" key ∷ [];
    samples = record { value = float.from_u64 total; timestamp_ms = now } ∷ [];
  }

module _ {F : Type 0} (float : Float F) (prost : Prost F) (snappy : Snappy) {Conn Db : Type 0}
    (state : Inner Conn) where
  -- There are counters, and one request was made and accepted, with these counters.
  abbrev pub Reported : (now : ℤ) → List (String × ℕ) → (w w' : World Db) → Type 0
  Reported now entries w w' =
      (entries ≢ [])
      × (protobuf body : List ℕ) × (encode_write_request prost
            (map (total_series float now) entries)
          ≡ ok protobuf)
      × (snappy protobuf ≡ some body)
      × (w'.requests ≡ w.requests ++ remote_write_request state.config.prometheus_url body ∷ [])
      × (resp : Response) × (state.http w.requests
            (remote_write_request state.config.prometheus_url body)
          ≡ ok resp)
      × (accepted resp.status ≡ true)

module _ {F : Type 0} (float : Float F) (prost : Prost F) (snappy : Snappy)
    {RedisClient Conn Db : Type 0} (server : Redis RedisClient Conn Db) (state : Inner Conn) where
  flush_totals-Reported :
      (now : ℤ) (entry : String × ℕ) (entries : List (String × ℕ)) (w w' : World Db)
      → flush_totals float prost snappy server state now (entry ∷ entries) w ≡ (ok tt, w')
      → Reported float prost snappy state now (entry ∷ entries) w w'
        × (w'.db ≡ w.db)
        × (w'.out ≡ w.out)
  unfolding flush_totals post_remote_write edge_series
  flush_totals-Reported now entry entries w w' e =
      let series = map (edge_series float now) (entry ∷ entries) in
      let (protobuf, encoded, e₁) =
        continue-eq-ok (map_err encode (encode_write_request prost series)) _ w e in
      let (body, compressed, e₂) =
        continue-eq-ok (prepare_remote_write_body snappy protobuf) _ w e₁ in
      let posted = post_remote_write state body w in
      let (status, judged, e₃) = continue-eq-ok posted.0 _ posted.1 e₂ in
      let after = ap (λ (p : Outcome ServerError Unit × World Db). p.1) e₃ in
      let (resp, response, same, good) = judge-eq-ok _ status judged in
      (
        (
          (λ none. cc),
          protobuf,
          body,
          map_err-eq-ok encode (encode_write_request prost series) encoded,
          prepare_remote_write_body-eq-ok snappy protobuf body compressed,
          ap (λ (v : World Db). v.requests) (sym after),
          resp,
          response,
          ap accepted same ∙ good,
        ),
        ap (λ (v : World Db). v.db) (sym after),
        ap (λ (v : World Db). v.out) (sym after),
      )

  flush_totals_cases :
      (now : ℤ) (entries : List (String × ℕ)) (w w' : World Db)
      → flush_totals float prost snappy server state now entries w ≡ (ok tt, w')
      → (((entries ≡ []) × (w'.requests ≡ w.requests))
          ⊎ Reported float prost snappy state now entries w w')
        × (w'.db ≡ w.db)
        × (w'.out ≡ w.out)
  unfolding flush_totals
  flush_totals_cases now [] w w' e =
      let after = ap (λ (p : Outcome ServerError Unit × World Db). p.1) e in
      (
        inl (refl, ap (λ (v : World Db). v.requests) (sym after)),
        ap (λ (v : World Db). v.db) (sym after),
        ap (λ (v : World Db). v.out) (sym after),
      )
  flush_totals_cases now (entry ∷ entries) w w' e =
      let (reported, db, out) = flush_totals-Reported now entry entries w w' e in
      (inr reported, db, out)

  -- A report that succeeded has read the totals. Where there were none, no request was made. Where
  -- there were some, exactly one request was made, and its response was one of success: its body is
  -- the compressed encoding of one series for each total, in their order, with the name
  -- prom_proxy_edge_total, the key as a label, and the total at the time of the report. No frame was
  -- sent.
  pub flush_edges_reported :
      (now : ℤ) (w w' : World Db)
      → flush_edges float prost snappy server state now w ≡ (ok tt, w')
      → (entries : List (String × ℕ)) × (totals server state.edges w.db ≡ (ok entries, w'.db))
        × (((entries ≡ []) × (w'.requests ≡ w.requests))
            ⊎ Reported float prost snappy state now entries w w')
        × (w'.out ≡ w.out)
  unfolding flush_edges
  flush_edges_reported now w w' e =
      let read = totals server state.edges w.db in
      let w₁ : World Db = record w { db = read.1 } in
      let (entries, got, rest) = continue-eq-ok (map_err edge read.0) _ w₁ e in
      let (cases, db, out) = flush_totals_cases now entries w₁ w' rest in
      let fine = map_err-eq-ok edge read.0 got in (entries, λ i. (fine i, sym db i), cases, out)
