-- ===== src/Binary/Main.antt =====
-- src/bin/prom_proxy.rs: from the arguments to the server, and the exit status.
use proto.Base.{
  ℕ, ◌≡◌, ap, ◌∙◌, sym, length, Option, some, List, String, Outcome, ok, err, panicked, ◌>>=◌,
  >>=-eq-ok, map_err, map_err-eq-ok, ok-injective,
}
use proto.TinyFrame.Types.{IoError, key_len}
use proto.TinyFrame.Key.{KeyCell, unset, set_encrypt_key, require_encrypt_key}
use proto.PromProxy.Edge.{Redis, connect, default_edge_hash_key}
use proto.PromProxy.Server.State.{ServerError, edge, ServerConfig, new_config, Http, Inner}
use proto.PromProxy.Server
use proto.Binary.{
  Exit, usage, unknown_argument, invalid_listen_addr, invalid_secretkey, secretkey_length, Settings,
  parse_args,
}
use proto.Binary.Arguments.{parse_args-key}

-- `process::exit`.
abbrev pub exit_status : Exit → ℕ
exit_status usage = 2
exit_status (unknown_argument arg) = 2
exit_status (invalid_listen_addr text) = 1
exit_status (invalid_secretkey problem) = 1
exit_status (secretkey_length n) = 1

-- What `server.spawn().await` gives: the result of the task, or a task that was stopped.
pub data Joined : Type 0 where
  joined : Outcome ServerError (Unit {0}) → Joined
  join_error : Joined

abbrev pub final_status : Joined → Outcome ℕ (Unit {0})
final_status (joined (ok _)) = ok tt
final_status (joined (err e)) = err 1
final_status (joined (panicked p)) = err 1
final_status join_error = err 1

module _ (parse_addr : String → Option String) {RedisClient Conn Db : Type 0}
    (server : Redis RedisClient Conn Db) where
  -- `fn main` until the server is there; an error is an exit status.
  unfoldable pub start_server :
      (args : List String) (env : String → Option String)
      → KeyCell
      → Http
      → Outcome ℕ (KeyCell × Inner Conn)
  start_server args env cell http = do
    settings ← map_err exit_status (parse_args parse_addr args env)
    keyed ← set_encrypt_key (some settings.key) cell
    inner ←
        map_err (λ e. 1)
          (Server.new server (new_config settings.listen settings.prometheus_url settings.redis_url)
            http)
    ok (keyed, inner)

  -- `fn main`; `serve` is what comes of the server.
  unfoldable pub main :
      (args : List String) (env : String → Option String)
      → KeyCell
      → Http
      → (serve : KeyCell → Inner Conn → Joined) → Outcome ℕ (Unit {0})
  main args env cell http serve = do
    (keyed, inner) ← start_server args env cell http
    final_status (serve keyed inner)

  new-eq-ok :
      (config : ServerConfig) (http : Http) (inner : Inner Conn)
      → Server.new server config http ≡ ok inner
      → (inner.config ≡ config)
        × (connect server config.redis_url config.edge_hash_key ≡ ok inner.edges)
  unfolding Server.new
  new-eq-ok config http inner e =
      let (edges, connected, last) =
        >>=-eq-ok (map_err edge (connect server config.redis_url config.edge_hash_key)) _ e in
      let same = ok-injective last in
      (
        ap (λ (i : Inner Conn). i.config) (sym same),
        map_err-eq-ok edge (connect server config.redis_url config.edge_hash_key) connected
            ∙ ap (λ (i : Inner Conn). ok i.edges) same,
      )

  -- A process that gets as far as to serve has read its arguments; the key that is required for
  -- encryption is the one that was read, of 32 bytes; and the server has the address and the two
  -- URLs that were read, and the default message type and hash key, with which it is connected to
  -- Redis.
  pub start_server-eq-ok :
      (args : List String) (env : String → Option String) (http : Http) (keyed : KeyCell)
      (inner : Inner Conn)
      → start_server args env unset http ≡ ok (keyed, inner)
      → (settings : Settings String) × (parse_args parse_addr args env ≡ ok settings)
        × (◌≡◌ {A = Outcome IoError (List ℕ)} (require_encrypt_key keyed) (ok settings.key))
        × (length settings.key ≡ key_len)
        × (inner.config ≡ new_config settings.listen settings.prometheus_url settings.redis_url)
        × (connect server settings.redis_url default_edge_hash_key ≡ ok inner.edges)
  unfolding start_server set_encrypt_key require_encrypt_key
  start_server-eq-ok args env http keyed inner e =
      let (settings, read, e₁) =
        >>=-eq-ok (map_err exit_status (parse_args parse_addr args env)) _ e in
      let config = new_config settings.listen settings.prometheus_url settings.redis_url in
      let made = Server.new server config http in
      let (inner₁, built, e₂) = >>=-eq-ok (map_err (λ e. 1) made) _ e₁ in
      let parsed = map_err-eq-ok exit_status (parse_args parse_addr args env) read in
      let (configured, connected) =
        new-eq-ok config http inner₁ (map_err-eq-ok (λ e. 1) made built) in
      let pair = ok-injective e₂ in
      let cell : some (some settings.key) ≡ keyed = ap (λ (q : KeyCell × Inner Conn). q.0) pair in
      let same : inner₁ ≡ inner = ap (λ (q : KeyCell × Inner Conn). q.1) pair in
      (
        settings,
        parsed,
        ap (λ k. require_encrypt_key k) (sym cell),
        (parse_args-key parse_addr args env settings parsed).0,
        ap (λ (i : Inner Conn). i.config) (sym same) ∙ configured,
        connected ∙ ap (λ (i : Inner Conn). ok i.edges) same,
      )
