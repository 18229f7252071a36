-- ===== src/Dfinder/Server/Interleaving/Tracked.antt =====
-- An invariant of the registry under every interleaving.
use proto.Base.{
  ℕ, ◌<◌, ◌^◌, ◌≡◌, ap, if◌then◌else◌, Bool, true, false, List, [], ◌∷◌, String, str_eq, Option,
  none, some, Outcome, ok, Bool-cases, Outcome-cases, >>=-eq-ok, ok-injective, map_err,
  map_err-eq-ok, inl, inr,
}
use mathlib.Core.Path.{subst}
use proto.Base.Maps.{HashMap, empty, insert}
use proto.Dfinder.Protocol.{NodeInfo, Serde, SerdeLaws}
use proto.Dfinder.Store.{Sqlite, open_store, list_all}
use proto.Dfinder.Store.Table.{SqliteLaws}
use proto.Dfinder.Store.Lookup.{find_node}
use proto.Dfinder.Store.Refines.{node_at, list_all-node_at}
use proto.Dfinder.Server.State.{
  ServerError, ServerConfig, Server, in_store, HealthState, Inner, initial_health, new,
}
use proto.Dfinder.Server.Locked.{mark_node, store_node, remove_node, remove_expired}
use proto.Dfinder.Server.Cycle.{remove_node_lem}
use proto.Dfinder.Server.Queries.{store_node-node_at}
use proto.Dfinder.Server.Interleaving.{
  resting, System, ProbeStep, Step, register, probe, begin, probe_one, finish, Reach, here, next,
}

-- A node that can be listed has an entry in the health map.
abbrev pub Tracked {ℓ κ} : {A : Type ℓ} {B : Type κ} → Option A → Option B → Type 0
Tracked none entry = Unit
Tracked (some node) none = ⊥
Tracked (some node) (some entry) = Unit

module _ {E : Type 0} where
  initial_health_keeps :
      (now : ℕ) (health : HashMap HealthState) (nodes : List (NodeInfo E)) (ip : String)
      (h : HealthState)
      → health ip ≡ some h
      → (h' : HealthState) × (initial_health now health nodes ip ≡ some h')
  unfolding initial_health
  initial_health_keeps now health [] ip h e = (h, e)
  initial_health_keeps now health (node ∷ nodes) ip h e = elim (Bool-cases (str_eq node.ip ip)) [
    | inl same ↦
        initial_health_keeps now (insert node.ip (record { healthy = false; last_ok = now }) health)
          nodes ip (record { healthy = false; last_ok = now }) (rw same)
    | inr differs ↦
        initial_health_keeps now (insert node.ip (record { healthy = false; last_ok = now }) health)
          nodes ip h (rw differs e)
  ]

  initial_health-Tracked :
      (now : ℕ) (health : HashMap HealthState) (nodes : List (NodeInfo E)) (ip : String)
      → Tracked (find_node ip nodes) (initial_health now health nodes ip)
  unfolding initial_health
  initial_health-Tracked now health [] ip = tt
  initial_health-Tracked now health (node ∷ nodes) ip = elim (Bool-cases (str_eq node.ip ip)) [
    | inl same ↦
        let (h, e) =
          initial_health_keeps now
            (insert node.ip (record { healthy = false; last_ok = now }) health) nodes ip
            (record { healthy = false; last_ok = now }) (rw same) in
        rw (same, e) tt
    | inr differs ↦ rw differs (
        initial_health-Tracked now
          (insert node.ip (record { healthy = false; last_ok = now }) health) nodes ip)
  ]

module _ {E Conn : Type 0} (serde : Serde E) (coding : SerdeLaws serde) (db : Sqlite Conn)
    (table : SqliteLaws db) where
  abbrev pub IsTracked : Inner E Conn → Type 0
  IsTracked g = (ip : String) → Tracked (node_at serde db table g.store ip) (g.health ip)

  new-IsTracked :
      (now : ℕ) (config : ServerConfig E) (server : Server E Conn)
      → new serde db now config ≡ ok server
      → IsTracked server.inner
  unfolding new
  new-IsTracked now config server e ip =
      let (store, e₁, k₁) = >>=-eq-ok (map_err in_store (open_store db config.db_path)) _ e in
      let (nodes, e₂, k₂) = >>=-eq-ok (map_err in_store (list_all serde db store)) _ k₁ in
      let listed = map_err-eq-ok in_store (list_all serde db store) e₂ in
      let same = ok-injective k₂ in
      subst
        (λ (s : Server E Conn).
          Tracked (node_at serde db table s.inner.store ip) (s.inner.health ip))
        same
        (rw (← list_all-node_at serde coding db table store nodes ip listed)
          (initial_health-Tracked now empty nodes ip))

  store_node-IsTracked :
      (secs now : ℕ) (node : NodeInfo E) (g g' : Inner E Conn)
      → node.port < 2 ^ 16
      → store_node serde db secs now node g ≡ ok g'
      → IsTracked g
      → IsTracked g'
  store_node-IsTracked secs now node g g' fits e t ip =
      let (stored, health) =
        store_node-node_at serde coding db table secs now node g g' ip fits e in
      rw (stored, health)
        (elim (Bool-cases (str_eq node.ip ip)) [
          | inl same ↦ rw same tt
          | inr differs ↦ rw differs (t ip)
        ])

  Tracked-insert :
      (o : Option (NodeInfo E)) (old : Option HealthState) (h : HealthState) (b : Bool)
      → Tracked o old
      → Tracked o (if b then some h else old)
  Tracked-insert none old h b t = tt
  Tracked-insert (some node) old h true t = tt
  Tracked-insert (some node) old h false t = t

  mark_node-IsTracked :
      (now ttl : ℕ) (answer : Bool) (ip : String) (g : Inner E Conn) (expired : List String)
      → IsTracked g
      → IsTracked (mark_node now ttl answer ip (g, expired)).0
  unfolding mark_node
  mark_node-IsTracked now ttl answer ip g expired t j = Tracked-insert _ _ _ (str_eq ip j) (t j)

  remove_node-IsTracked :
      (key : String) (g g' : Inner E Conn)
      → remove_node db key g ≡ ok g'
      → IsTracked g
      → IsTracked g'
  remove_node-IsTracked key g g' e t ip =
      let (node, health) = remove_node_lem serde coding db table key g g' ip e in
      rw (node, health)
        (elim (Bool-cases (str_eq key ip)) [
          | inl same ↦ rw same tt
          | inr differs ↦ rw differs (t ip)
        ])

  -- Also where the removals stop at an error.
  remove_expired-IsTracked :
      (ips : List String) (g : Inner E Conn) → IsTracked g → IsTracked (remove_expired db ips g).1
  unfolding remove_expired
  remove_expired-IsTracked [] g t = t
  remove_expired-IsTracked (key ∷ ips) g t = elim (Outcome-cases (remove_node db key g)) [
    | inl (g₁, e) ↦
        rw (e, remove_expired)
          (remove_expired-IsTracked ips g₁ (remove_node-IsTracked key g g₁ e t))
    | inr (inl (x, e)) ↦ rw (e, remove_expired) t
    | inr (inr (p, e)) ↦ rw (e, remove_expired) t
  ]

  ProbeStep-IsTracked :
      {s s' : System E Conn} → ProbeStep serde db s s' → IsTracked s.inner → IsTracked s'.inner
  ProbeStep-IsTracked (begin g now nodes e) t = t
  ProbeStep-IsTracked (probe_one g now ttl node pending expired answer) t =
      mark_node-IsTracked now ttl answer node.ip g expired t
  ProbeStep-IsTracked (finish g g' now ttl expired r e) t =
      subst IsTracked (ap (λ (p : Outcome ServerError Unit × Inner E Conn). p.1) e)
        (remove_expired-IsTracked expired g t)

  Step-IsTracked :
      {s s' : System E Conn} → Step serde db s s' → IsTracked s.inner → IsTracked s'.inner
  Step-IsTracked (register g g' p secs now node fits e) t =
      store_node-IsTracked secs now node g g' fits e t
  Step-IsTracked (probe s s' st) t = ProbeStep-IsTracked st t

  Reach-Tracked :
      {s s' : System E Conn} → IsTracked s.inner → Reach serde db s s' → IsTracked s'.inner
  Reach-Tracked t here = t
  Reach-Tracked t (next r st) = Step-IsTracked st (Reach-Tracked t r)

  -- From a server that has just been made, whatever registrations come between whichever sections
  -- of its probe cycles, and whatever the probes answer and the statements report: every node that
  -- can be listed has an entry in the health map.
  pub new-Reach-Tracked :
      (now : ℕ) (config : ServerConfig E) (server : Server E Conn) (s : System E Conn) (ip : String)
      → new serde db now config ≡ ok server
      → Reach serde db (record { inner = server.inner; phase = resting }) s
      → Tracked (node_at serde db table s.inner.store ip) (s.inner.health ip)
  new-Reach-Tracked now config server s ip e r =
      Reach-Tracked (new-IsTracked now config server e) r ip
