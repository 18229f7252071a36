-- ===== src/Dfinder/Server/Interleaving/Silence.antt =====
-- A node that does not answer: what each step of the server does about it.
use proto.Base.{
  ℕ, suc, ◌-◌, ◌<◌, ◌^◌, ◌≡◌, refl, sym, ap, ◌∙◌, leb, Bool, true, false, List, ◌∷◌, String, str_eq,
  eq_iff, length, Option, none, some, ok, ◌⊎◌, inl, inr, Bool-cases, arith,
}
use mathlib.Core.Path.{subst}
use proto.Base.Maps.{contains}
use proto.Dfinder.Protocol.{NodeInfo, Serde, SerdeLaws}
use proto.Dfinder.Store.{Sqlite}
use proto.Dfinder.Store.Table.{SqliteLaws}
use proto.Dfinder.Store.Lookup.{find_node}
use proto.Dfinder.Store.Refines.{node_at}
use proto.Dfinder.Server.State.{HealthState, Inner}
use proto.Dfinder.Server.Locked.{mark_node, store_node}
use proto.Dfinder.Server.Cycle.{mark_node_lem, store-mark_node, remove_expired_lem}
use proto.Dfinder.Server.Queries.{store_node-node_at}
use proto.Dfinder.Server.Interleaving.{
  Phase, resting, probing, System, ProbeStep, register, probe, begin, probe_one, finish, Reach,
  here, next,
}

module _ {E Conn : Type 0} (serde : Serde E) (db : Sqlite Conn) where
  -- The number of steps of the probe task in a run.
  abbrev pub probe_steps : {s t : System E Conn} → Reach serde db s t → ℕ
  probe_steps here = 0
  probe_steps (next r (register g g' p secs now node fits e)) = probe_steps r
  probe_steps (next r (probe s s' st)) = suc (probe_steps r)

  -- A node is silent in a run: it does not register, its probes fail, and the removals succeed.
  abbrev pub SilentProbe : (ip : String) {s s' : System E Conn} → ProbeStep serde db s s' → Type 0
  SilentProbe ip (begin g now nodes e) = Unit {0}
  SilentProbe ip (probe_one g now ttl node pending expired answer) =
      str_eq node.ip ip ≡ true → answer ≡ false
  SilentProbe ip (finish g g' now ttl expired r e) = r ≡ ok tt

  abbrev pub Silent : (ip : String) {s t : System E Conn} → Reach serde db s t → Type 0
  Silent ip here = Unit {0}
  Silent ip (next r (register g g' p secs now node fits e)) =
      Silent ip r × (str_eq node.ip ip ≡ false)
  Silent ip (next r (probe s s' st)) = Silent ip r × SilentProbe ip st

module _ {E Conn : Type 0} (serde : Serde E) (coding : SerdeLaws serde) (db : Sqlite Conn)
    (table : SqliteLaws db) (ip : String) where
  abbrev pub Gone : Inner E Conn → Type 0
  Gone g = node_at serde db table g.store ip ≡ none

  -- In a cycle, with this many probes left: the node is to be probed, or is listed as expired.
  abbrev pub Awaiting : (last_ok left : ℕ) → Phase E → Option HealthState → Type 0
  Awaiting last_ok left resting entry = ⊥
  Awaiting last_ok left (probing now ttl pending expired) entry =
      (leb ttl (now - last_ok) ≡ true)
      × (length pending ≡ left)
      × ((h : HealthState) × (entry ≡ some h) × (h.last_ok ≡ last_ok))
      × ((contains expired ip ≡ true) ⊎ ((node : NodeInfo E) × (find_node ip pending ≡ some node)))

  -- A node that is gone does not come back by itself.
  pub ProbeStep-Gone :
      {s s' : System E Conn} (st : ProbeStep serde db s s')
      → SilentProbe serde db ip st
      → Gone s.inner
      → Gone s'.inner
  ProbeStep-Gone (begin g now nodes e) silent gone = gone
  ProbeStep-Gone (probe_one g now ttl node pending expired answer) silent gone =
      rw (store-mark_node now ttl (λ _. answer) node g expired) gone
  ProbeStep-Gone (finish g g' now ttl expired r e) silent gone =
      let (at, _) = remove_expired_lem serde coding db table expired g g' ip (rw silent at e) in
      at ∙ ground (arith, gone)

  -- A probe of the node puts it on the list; a probe of another changes nothing of what is awaited.
  probe_one-Awaiting :
      (now ttl last_ok left : ℕ) (g : Inner E Conn) (node : NodeInfo E)
      (pending : List (NodeInfo E)) (expired : List String) (answer : Bool)
      → (str_eq node.ip ip ≡ true → answer ≡ false)
      → Awaiting last_ok left (probing now ttl (node ∷ pending) expired) (g.health ip)
      → let after : Inner E Conn × List String = mark_node now ttl answer node.ip (g, expired) in
        (rest : ℕ) × (left ≡ suc rest)
        × Awaiting last_ok rest (probing now ttl pending after.1) (after.0.health ip)
  probe_one-Awaiting now ttl last_ok left g node pending expired answer silent
        (due, size, (h, entry, since), where_is) =
      let (health, listed) = mark_node_lem now ttl (λ _. answer) node g expired ip in
      elim (Bool-cases (str_eq node.ip ip)) [
        | inl same ↦
            let at : g.health node.ip ≡ some h = ap g.health ((eq_iff node.ip ip).0 same) ∙ entry in
            let failed = silent same in
            (
              length pending,
              sym size,
              (
                due,
                refl,
                (
                  record { healthy = false; last_ok = h.last_ok },
                  health ∙ ground (arith, same, failed, at),
                  since,
                ),
                inl (listed ∙ ground (arith, same, failed, at, since, due)),
              ),
            )
        | inr differs ↦ (
          length pending,
          sym size,
          (
            due,
            refl,
            (h, health ∙ ground (arith, differs, entry), since),
            elim where_is [
              | inl already ↦ inl (listed ∙ ground (arith, already))
              | inr (n, found) ↦ inr (n, ground (arith, differs, found))
            ],
          ),
        )
      ]

  -- A step of the probe does away with the node, or brings it one probe nearer to that.
  pub ProbeStep-Awaiting :
      {s s' : System E Conn} (last_ok left : ℕ) (st : ProbeStep serde db s s')
      → SilentProbe serde db ip st
      → Awaiting last_ok left s.phase (s.inner.health ip)
      → Gone s'.inner
        ⊎ ((rest : ℕ) × (left ≡ suc rest) × Awaiting last_ok rest s'.phase (s'.inner.health ip))
  ProbeStep-Awaiting last_ok left (begin g now nodes e) silent waiting = elim waiting [ ]
  ProbeStep-Awaiting last_ok left (probe_one g now ttl node pending expired answer) silent waiting =
      inr (probe_one-Awaiting now ttl last_ok left g node pending expired answer silent waiting)
  ProbeStep-Awaiting last_ok left (finish g g' now ttl expired r e) silent (_, size, _, where_is) =
      inl (elim where_is [
        | inl listed ↦
            let (at, _) =
              remove_expired_lem serde coding db table expired g g' ip (rw silent at e) in
            at ∙ rw listed
        | inr (n, found) ↦ absurd (cc found)
      ])

  -- A registration of another node changes nothing of what is awaited.
  pub register-Awaiting :
      (last_ok left : ℕ) (g g' : Inner E Conn) (p : Phase E) (secs now : ℕ) (node : NodeInfo E)
      → node.port < 2 ^ 16
      → store_node serde db secs now node g ≡ ok g'
      → str_eq node.ip ip ≡ false
      → Awaiting last_ok left p (g.health ip)
      → Awaiting last_ok left p (g'.health ip)
  register-Awaiting last_ok left g g' p secs now node fits e other waiting =
      let (_, health) = store_node-node_at serde coding db table secs now node g g' ip fits e in
      subst (Awaiting last_ok left p) (sym (health ∙ rw other)) waiting
