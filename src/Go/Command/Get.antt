-- ===== src/Go/Command/Get.antt =====
-- cmd/tframe/client.go: one request and its response over one connection. `url.Parse`, the dialer,
-- the generator and the clock are parameters.
pub mod Stages
pub mod Checks
pub mod Answered
pub mod Unsent
use proto.Base.{
  ℕ, ◌+◌, ◌*◌, ◌-◌, ◌^◌, ◌%◌, ◌==◌, leb, ltb, if◌then◌else◌, ◌&&◌, Bool, true, false, List, [], ◌∷◌,
  String, str_eq, Option, none, some, length, Outcome, ok, err, panicked, map_err,
}
use proto.Base.Exec.{Exec, lift, gets, pure, ◌>>=◌, ◌>>◌}
use proto.Base.Integers.{ℤ, pos, negsuc}
use proto.Base.Results
use Prim.Native.Char.{code}
use Prim.Native.String
use proto.TinyFrame.Bytes.{from_be_bytes}
use proto.Go.Frame.Types.{Error, Frame, chacha20poly1305, compress_none}
use proto.Go.Frame.Codec.{Codec}
use proto.Go.Frame.Key.{KeyState, set_encrypt_key}
use proto.Go.Frame.Stream.{Writer, Reader, write, write_frame, read_frame}
use proto.Go.Command.Manifest.{
  ApiRoute, Manifest, CommandError, parse_url, unsupported_scheme, missing_host,
  message_type_out_of_range, compress_method_not_set, connect, write_request, read_response,
  write_output, find_route, parse_secret_key, compress_method_flag, validate_response_compression,
}

-- The fields of `url.URL` that the command reads.
pub record Url : Type 0 where
  pub scheme : String
  pub host : String
  pub path : String

abbrev pub starts_with_slash : String → Bool
starts_with_slash String.[] = false
starts_with_slash (String.◌∷◌ c s) = code c == b'/'

-- The path that is asked for.
abbrev pub asked_path : String → String
asked_path path =
    if str_eq path "" then "/" else if starts_with_slash path then path else String.◌++◌ "/" path

-- `parseTCPURL`: host and path.
unfoldable pub parse_tcp_url :
    (parse : String → Outcome String Url) (raw : String) → Outcome CommandError (String × String)
parse_tcp_url parse raw = Results.◌>>=◌ (map_err parse_url (parse raw)) (λ u.
    if str_eq u.scheme "tcp"
    then (if str_eq u.host "" then err missing_host else ok (u.host, asked_path u.path))
    else err (unsupported_scheme u.scheme))

-- `randomTxID`: the clock where the generator fails. `nanos` is `UnixNano`, cut to 64 bits.
unfoldable pub random_tx_id : (read : Outcome String (List ℕ)) (nanos : ℕ) → ℕ
random_tx_id (ok buf) nanos = from_be_bytes buf
random_tx_id (err e) nanos = nanos % 2 ^ 64
random_tx_id (panicked p) nanos = nanos % 2 ^ 64

-- The process-wide key, the two directions of the connection, and the output.
pub record World : Type 0 where
  pub key : KeyState
  pub request : Writer
  pub response : Reader
  pub output : Writer

-- A five-bit type out of the manifest's int.
unfoldable pub type_in_range : ℤ → Outcome CommandError ℕ
type_in_range (pos n) = if ltb 31 n then err (message_type_out_of_range (pos n)) else ok n
type_in_range (negsuc n) = err (message_type_out_of_range (negsuc n))

-- The check behind `compressMethodFlag`.
unfoldable pub compression_set : ApiRoute → (flag : ℕ) → Outcome CommandError (Unit {0})
compression_set route flag =
    if route.compressed && flag == compress_none
    then err (compress_method_not_set route.path)
    else ok tt

abbrev pub set_key : List ℕ → Exec CommandError World (Unit {0})
set_key key w = (ok tt, record w { key = set_encrypt_key (some key) w.key })

abbrev pub sending : (KeyState → Exec Error Writer (Unit {0})) → Exec CommandError World (Unit {0})
sending send w =
    let (r, out) = send w.key w.request in (map_err write_request r, record w { request = out })

abbrev pub received : Outcome Error (Frame × Reader) → Exec CommandError World Frame
received (ok (frame, rest)) w = (ok frame, record w { response = rest })
received (err e) w = (err (read_response e), w)
received (panicked p) w = (panicked p, w)

abbrev pub printing : Exec Error Writer (Unit {0}) → Exec CommandError World (Unit {0})
printing print w =
    let (r, out) = print w.output in (map_err write_output r, record w { output = out })

-- Nothing is written of an empty response.
abbrev pub print_payload : List ℕ → Exec CommandError World (Unit {0})
print_payload payload = if ltb 0 (length payload) then printing (write payload) else pure tt

module _ (g : Codec) (nonce : Outcome Error (List ℕ)) where
  -- `doGet` behind the dial.
  unfoldable pub ask :
      (route : ApiRoute) (message_type : ℕ) (method : String) (tx_id : ℕ)
      → Exec CommandError World (Unit {0})
  ask route message_type method tx_id = do
    sending (λ k. write_frame g k nonce message_type tx_id [] chacha20poly1305)
    frame ← (λ w. received (read_frame g w.key w.response) w)
    lift (validate_response_compression route method frame.compress_id)
    print_payload frame.payload

  -- `doGet`; `dial` is `net.DialTimeout`.
  unfoldable pub do_get :
      (parse : String → Outcome String Url) (dial : String → Outcome Error (Unit {0})) (tx_id : ℕ)
      → (raw_url : String) → Manifest
      → Exec CommandError World (Unit {0})
  do_get parse dial tx_id raw_url m = do
    (host_port, path) ← lift (parse_tcp_url parse raw_url)
    route ← lift (find_route m path)
    message_type ← lift (type_in_range route.message_type)
    key ← lift (parse_secret_key m)
    set_key key
    flag ← lift (compress_method_flag m)
    lift (compression_set route flag)
    lift (map_err connect (dial host_port))
    ask route message_type m.api.compress_method tx_id
