-- ===== src/Binary.antt =====
-- src/bin/prom_proxy.rs: the command line of the proxy. The text of a socket address is parsed by a
-- parameter.
pub mod Hex
pub mod Arguments
pub mod Main
pub mod Tests
use proto.Base.{
  ℕ, ◌==◌, if◌then◌else◌, Option, none, some, List, [], ◌∷◌, length, String, str_eq, Outcome, ok,
  err, ◌>>=◌, map_err,
}
use proto.TinyFrame.Types.{key_len}
use proto.Binary.Hex.{hex_decode}

-- Why the process leaves: with its usage, or with a message.
pub data Exit : Type 0 where
  usage : Exit
  unknown_argument : String → Exit
  invalid_listen_addr : String → Exit
  invalid_secretkey : String → Exit
  secretkey_length : ℕ → Exit

-- The four variables of `parse_args`.
pub record Given : Type 0 where
  pub listen : Option String
  pub prometheus_url : Option String
  pub redis_url : Option String
  pub secretkey : Option String

abbrev pub nothing_given : Given
nothing_given = record { listen = none; prometheus_url = none; redis_url = none; secretkey = none }

pub data Flag : Type 0 where
  listen prometheus_url redis_url secretkey help other : Flag

-- The patterns of the `match`.
unfoldable pub flag_of : String → Flag
flag_of arg =
    if str_eq arg "--listen"
    then listen
    else if str_eq arg "--prometheus-url"
    then prometheus_url
    else if str_eq arg "--redis-url"
    then redis_url
    else if str_eq arg "--secretkey"
    then secretkey
    else if str_eq arg "-h"
    then help
    else if str_eq arg "--help"
    then help
    else other

-- The arms that take a value.
unfoldable pub set_flag : Flag → (value : String) → Given → Option Given
set_flag listen value given = some (record given { listen = some value })
set_flag prometheus_url value given = some (record given { prometheus_url = some value })
set_flag redis_url value given = some (record given { redis_url = some value })
set_flag secretkey value given = some (record given { secretkey = some value })
set_flag help value given = none
set_flag other value given = none

-- How the process leaves at an argument that takes no value, or has none.
abbrev pub leave : Flag → (arg : String) → Exit
leave other arg = unknown_argument arg
leave listen arg = usage
leave prometheus_url arg = usage
leave redis_url arg = usage
leave secretkey arg = usage
leave help arg = usage

-- The loop over the arguments.
unfoldable pub parse_loop : List String → Given → Outcome Exit Given
parse_loop [] given = ok given
parse_loop (arg ∷ []) given = err (leave (flag_of arg) arg)
parse_loop (arg ∷ value ∷ args) given = elim (set_flag (flag_of arg) value given) [
  | some given' ↦ parse_loop args given'
  | none ↦ err (leave (flag_of arg) arg)
]

-- `.or_else(|| env::var(…).ok()).unwrap_or_else(|| usage())`.
abbrev pub or_usage : (given variable : Option String) → Outcome Exit String
or_usage (some value) variable = ok value
or_usage none (some value) = ok value
or_usage none none = err usage

abbrev pub parsed_or_exit : {Addr : Type 0} → (text : String) → Option Addr → Outcome Exit Addr
parsed_or_exit text none = err (invalid_listen_addr text)
parsed_or_exit text (some addr) = ok addr

pub record Settings (Addr : Type 0) : Type 0 where
  pub listen : Addr
  pub prometheus_url : String
  pub redis_url : String
  pub key : List ℕ

module _ {Addr : Type 0} (parse_addr : String → Option Addr) where
  -- `fn parse_args`; `env` are the variables of the environment.
  unfoldable pub parse_args :
      (args : List String) (env : String → Option String) → Outcome Exit (Settings Addr)
  parse_args args env = do
    given ← parse_loop args nothing_given
    listen_s ← or_usage given.listen (env "PROM_PROXY_LISTEN")
    url ← or_usage given.prometheus_url (env "PROM_PROXY_URL")
    redis ← or_usage given.redis_url (env "PROM_PROXY_REDIS_URL")
    key_hex ← or_usage given.secretkey (env "PROM_PROXY_SECRETKEY")
    addr ← parsed_or_exit listen_s (parse_addr listen_s)
    raw ← map_err invalid_secretkey (hex_decode key_hex)
    if length raw == key_len
        then ok (record { listen = addr; prometheus_url = url; redis_url = redis; key = raw })
        else err (secretkey_length (length raw))
