-- ===== src/Dfinder/Server/Interleaving/Stays.antt =====
-- A node that answers is not removed.
use proto.Base.{
  ◌≡◌, refl, ap, ◌∙◌, true, false, List, [], ◌∷◌, String, str_eq, some, Outcome, inl, inr,
  Bool-cases, Outcome-cases, arith,
}
use mathlib.Core.Path.{subst}
use proto.Base.Maps.{contains}
use proto.Dfinder.Protocol.{NodeInfo, Serde, SerdeLaws}
use proto.Dfinder.Store.{Sqlite}
use proto.Dfinder.Store.Table.{SqliteLaws}
use proto.Dfinder.Store.Refines.{node_at}
use proto.Dfinder.Server.State.{ServerError, Inner}
use proto.Dfinder.Server.Locked.{remove_node, remove_expired}
use proto.Dfinder.Server.Cycle.{mark_node_lem, store-mark_node, remove_node_lem}
use proto.Dfinder.Server.Queries.{store_node-node_at}
use proto.Dfinder.Server.Interleaving.{
  Phase, resting, probing, System, ProbeStep, register, probe, begin, probe_one, finish, Reach,
  here, next,
}

module _ {E Conn : Type 0} (serde : Serde E) (db : Sqlite Conn) where
  -- Each probe of the node in this run succeeds.
  abbrev pub AnsweringProbe :
      (ip : String) {s s' : System E Conn} → ProbeStep serde db s s' → Type 0
  AnsweringProbe ip (begin g now nodes e) = Unit {0}
  AnsweringProbe ip (probe_one g now ttl node pending expired answer) =
      str_eq node.ip ip ≡ true → answer ≡ true
  AnsweringProbe ip (finish g g' now ttl expired r e) = Unit {0}

  abbrev pub Answering : (ip : String) {s t : System E Conn} → Reach serde db s t → Type 0
  Answering ip here = Unit {0}
  Answering ip (next r (register g g' p secs now node fits e)) = Answering ip r
  Answering ip (next r (probe s s' st)) = Answering ip r × AnsweringProbe ip st

module _ {E Conn : Type 0} (serde : Serde E) (coding : SerdeLaws serde) (db : Sqlite Conn)
    (table : SqliteLaws db) (ip : String) where
  -- The removals, complete or stopped by an error, leave alone what is not listed.
  node_at-remove_expired :
      (ips : List String) (g : Inner E Conn)
      → contains ips ip ≡ false
      → node_at serde db table (remove_expired db ips g).1.store ip
        ≡ node_at serde db table g.store ip
  unfolding remove_expired
  node_at-remove_expired [] g absent = refl
  node_at-remove_expired (key ∷ ips) g absent = elim (Outcome-cases (remove_node db key g)) [
    | inl (g₁, e) ↦
        let other : str_eq key ip ≡ false = ground arith in
        let rest = node_at-remove_expired ips g₁ (ground arith) in
        let (at, _) = remove_node_lem serde coding db table key g g₁ ip e in
        rw (e, remove_expired) (rest ∙ at ∙ rw other)
    | inr (inl (x, e)) ↦ rw (e, remove_expired)
    | inr (inr (p, e)) ↦ rw (e, remove_expired)
  ]

  abbrev Unlisted : Phase E → Type 0
  Unlisted resting = Unit {0}
  Unlisted (probing now ttl pending expired) = contains expired ip ≡ false

  abbrev Present : System E Conn → Type 0
  Present s =
      ((node : NodeInfo E) × (node_at serde db table s.inner.store ip ≡ some node))
      × Unlisted s.phase

  ProbeStep-Present :
      {s s' : System E Conn} (st : ProbeStep serde db s s')
      → AnsweringProbe serde db ip st
      → Present s
      → Present s'
  ProbeStep-Present (begin g now nodes e) answers (there, _) = (there, refl)
  ProbeStep-Present (probe_one g now ttl node pending expired answer) answers ((n, at), unlisted) =
      let (_, listed) = mark_node_lem now ttl (λ _. answer) node g expired ip in
      (
        (n, rw (store-mark_node now ttl (λ _. answer) node g expired) at),
        listed ∙ elim (Bool-cases (str_eq node.ip ip)) [
          | inl same ↦ ground (arith, same, answers same, unlisted)
          | inr differs ↦ ground (arith, differs, unlisted)
        ],
      )
  ProbeStep-Present (finish g g' now ttl expired r e) answers ((n, at), unlisted) =
      let after = ap (λ (p : Outcome ServerError Unit × Inner E Conn). p.1) e in
      (
        (
          n,
          subst (λ (i : Inner E Conn). node_at serde db table i.store ip ≡ some n) after
              (node_at-remove_expired expired g unlisted ∙ at),
        ),
        tt,
      )

  Reach-Present :
      {s s' : System E Conn} (r : Reach serde db s s')
      → Answering serde db ip r
      → Present s
      → Present s'
  Reach-Present here answering there = there
  Reach-Present (next r (register g g' p secs now node fits e)) answering there =
      let ((n, at), unlisted) = Reach-Present r answering there in
      let (stored, _) = store_node-node_at serde coding db table secs now node g g' ip fits e in
      elim (Bool-cases (str_eq node.ip ip)) [
        | inl same ↦ ((node, stored ∙ rw same), unlisted)
        | inr differs ↦ ((n, stored ∙ rw differs at), unlisted)
      ]
  Reach-Present (next r (probe s s' st)) answering there =
      ProbeStep-Present st answering.1 (Reach-Present r answering.0 there)

  -- A node that is registered while the probe rests, and whose probes succeed, stays registered:
  -- whatever registrations come, whatever the other probes answer, however many cycles are run, and
  -- whether their removals succeed or fail.
  pub node_at-Answering :
      (g : Inner E Conn) (node : NodeInfo E) (t : System E Conn)
      → node_at serde db table g.store ip ≡ some node
      → (r : Reach serde db (record { inner = g; phase = resting }) t) → Answering serde db ip r
      → (node' : NodeInfo E) × (node_at serde db table t.inner.store ip ≡ some node')
  node_at-Answering g node t at r answering = (Reach-Present r answering ((node, at), tt)).0
