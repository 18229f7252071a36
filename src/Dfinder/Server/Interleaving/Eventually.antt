-- ===== src/Dfinder/Server/Interleaving/Eventually.antt =====
-- A node that is gone for too long is removed, whatever the others do in the meantime.
use proto.Base.{
  ℕ, ◌+◌, ◌-◌, ◌<◌, ◌≤◌, ◌≡◌, refl, sym, ◌∙◌, List, [], String, length, none, some, ok, ◌⊎◌, inl,
  inr, Option-cases, arith,
}
use proto.Dfinder.Protocol.{NodeInfo, Serde, SerdeLaws}
use proto.Dfinder.Store.{Sqlite, list_all}
use proto.Dfinder.Store.Table.{SqliteLaws}
use proto.Dfinder.Store.Lookup.{find_node}
use proto.Dfinder.Store.Refines.{node_at, list_all-node_at}
use proto.Dfinder.Server.State.{HealthState, Inner}
use proto.Dfinder.Server.Queries.{store_node-node_at}
use proto.Dfinder.Server.Interleaving.{probing, System, register, probe, Reach, here, next}
use proto.Dfinder.Server.Interleaving.Silence.{
  Gone, Awaiting, probe_steps, Silent, ProbeStep-Gone, ProbeStep-Awaiting, register-Awaiting,
}

module _ {E Conn : Type 0} (serde : Serde E) (coding : SerdeLaws serde) (db : Sqlite Conn)
    (table : SqliteLaws db) (ip : String) where
  -- What holds all the time: the node is gone, or so many steps of the probe are still to come.
  abbrev Settling : (last_ok all : ℕ) → (System E Conn) → (taken : ℕ) → Type 0
  Settling last_ok all s taken =
      Gone serde coding db table ip s.inner
      ⊎ ((left : ℕ) × (left + taken ≡ all)
          × Awaiting serde coding db table ip last_ok left s.phase (s.inner.health ip))

  Reach-Settling :
      {s t : System E Conn} (last_ok left : ℕ) (r : Reach serde db s t)
      → Silent serde db ip r
      → Settling last_ok left s 0
      → Settling last_ok left t (probe_steps serde db r)
  Reach-Settling last_ok left here silent waiting = waiting
  Reach-Settling last_ok left (next r (register g g' p secs now node fits e)) silent waiting =
      elim (Reach-Settling last_ok left r silent.0 waiting) [
        | inl gone ↦
            let (at, _) = store_node-node_at serde coding db table secs now node g g' ip fits e in
            inl (at ∙ rw (silent.1, gone))
        | inr (n, sum, more) ↦ inr (
          n,
          sum,
          register-Awaiting serde coding db table ip last_ok n g g' p secs now node fits e silent.1
              more,
        )
      ]
  Reach-Settling last_ok left (next r (probe s s' st)) silent waiting =
      elim (Reach-Settling last_ok left r silent.0 waiting) [
        | inl gone ↦ inl (ProbeStep-Gone serde coding db table ip st silent.1 gone)
        | inr (n, sum, more) ↦
            elim (ProbeStep-Awaiting serde coding db table ip last_ok n st silent.1 more) [
              | inl gone ↦ inl gone
              | inr (rest, one, still) ↦ inr (rest, omega arith, still)
            ]
      ]

  -- A node that was last known to be healthy at least `offline_ttl` before the start of a probe
  -- cycle is no longer in the table once the probe has taken one step for each listed node and one
  -- more, and it stays away: whatever registrations of other nodes come in between, whatever the
  -- other probes answer, and however many cycles follow. In the run the node is silent: it does not
  -- register, its probes fail, and the removals succeed.
  pub node_at-Silent :
      (g : Inner E Conn) (now : ℕ) (nodes : List (NodeInfo E)) (h : HealthState) (t : System E Conn)
      → list_all serde db g.store ≡ ok nodes
      → g.health ip ≡ some h
      → g.offline_ttl ≤ now - h.last_ok
      → (r : Reach serde db (record { inner = g; phase = probing now g.offline_ttl nodes [] }) t)
      → Silent serde db ip r
      → length nodes < probe_steps serde db r
      → node_at serde db table t.inner.store ip ≡ none
  node_at-Silent g now nodes h t listed entry due r silent enough =
      let first : Settling h.last_ok (length nodes)
          (record { inner = g; phase = probing now g.offline_ttl nodes [] }) 0 =
        elim (Option-cases (find_node ip nodes)) [
          | inr (node, found) ↦
              inr (
                length nodes,
                omega arith,
                (ground arith, refl, (h, entry, refl), inr (node, found)),
              )
          | inl absent ↦
              inl (sym (list_all-node_at serde coding db table g.store nodes ip listed) ∙ absent)
        ] in
      elim (Reach-Settling h.last_ok (length nodes) r silent first) [
        | inl gone ↦ gone
        | inr (n, sum, more) ↦ absurd (omega arith)
      ]
