-- ===== src/Go/Command/Manifest.antt =====
-- cmd/tframe/manifest.go: the manifest, with the key, the compression and the routes. The file
-- system and `json.Unmarshal` are parameters.
use proto.Base.{
  ℕ, ◌+◌, ◌==◌, leb, if◌then◌else◌, ◌&&◌, Bool, true, false, List, [], ◌∷◌, String, str_eq, Outcome,
  ok, err, map_err, ◌>>=◌,
}
use proto.Base.Integers.{ℤ}
use Prim.Native.Char.{code}
use proto.Binary.Hex.{trim_start, trim_end}
use proto.Go.Frame.Types.{Error, compress_none, compress_gzip, compress_deflate}
use proto.Go.Hex.{KeyError, parse_secret_key_hex}

pub record ApiRoute : Type 0 where
  pub message_type : ℤ
  pub path : String
  pub compressed : Bool

pub record ApiConfig : Type 0 where
  pub secret_key : String
  pub compress_method : String
  pub interfaces : List ApiRoute

pub record Manifest : Type 0 where
  pub api : ApiConfig

-- The errors of the command, with what they show; those of the libraries by their texts.
pub data CommandError : Type 0 where
  home parse_url : String → CommandError
  read_manifest : String → String → CommandError
  parse_manifest : String → CommandError
  secret_key_required missing_host : CommandError
  bad_secret_key : KeyError → CommandError
  unsupported_compress_method path_not_found unsupported_scheme : String → CommandError
  compress_method_not_set response_not_compressed : (path : String) → CommandError
  message_type_out_of_range : ℤ → CommandError
  connect write_request read_response write_output : Error → CommandError

-- `defaultManifestPath`, with `os.UserHomeDir` and `filepath.Join`.
unfoldable pub default_manifest_path :
    (user_home_dir : Outcome String String) (join : List String → String)
    → Outcome CommandError String
default_manifest_path user_home_dir join = do
  dir ← map_err home user_home_dir
  ok (join (dir ∷ ".config" ∷ "tframe.json" ∷ []))

-- `loadManifest`, with `os.ReadFile` and `json.Unmarshal`.
unfoldable pub load_manifest :
    (read_file : String → Outcome String (List ℕ)) (unmarshal : List ℕ → Outcome String Manifest)
    (path : String)
    → Outcome CommandError Manifest
load_manifest read_file unmarshal path = do
  bytes ← map_err (read_manifest path) (read_file path)
  m ← map_err parse_manifest (unmarshal bytes)
  if str_eq m.api.secret_key "" then err secret_key_required else ok m

-- `parseSecretKey`: the code of `ParseSecretKeyHex`.
unfoldable pub parse_secret_key : Manifest → Outcome CommandError (List ℕ)
parse_secret_key m = map_err bad_secret_key (parse_secret_key_hex m.api.secret_key)

-- `unicode.ToLower` on a code point, where the result can be ASCII: the letters, the dotted capital
-- I and the Kelvin sign. Another letter is not ASCII in lower case either.
unfoldable pub lower : ℕ → ℕ
lower c =
    if leb b'A' c && leb c b'Z'
    then c + 32
    else if c == 0x130
    then b'i'
    else if c == 0x212A
    then b'k'
    else c

-- `strings.ToLower(s) == t`, for a lower-case text of ASCII.
unfoldable pub lowers_to : (s t : String) → Bool
unfolding lower
lowers_to String.[] String.[] = true
lowers_to String.[] (String.◌∷◌ d t) = false
lowers_to (String.◌∷◌ c s) String.[] = false
lowers_to (String.◌∷◌ c s) (String.◌∷◌ d t) = (lower (code c) == code d) && lowers_to s t

-- The case `"", "none"` of both switches on the method.
unfoldable pub names_none : String → Bool
unfolding lowers_to
names_none method =
    if lowers_to (trim_end (trim_start method)) ""
    then true
    else lowers_to (trim_end (trim_start method)) "none"

-- `compressMethodFlag`.
unfoldable pub compress_method_flag : Manifest → Outcome CommandError ℕ
unfolding lowers_to
compress_method_flag m =
    let method = trim_end (trim_start m.api.compress_method) in
    if names_none m.api.compress_method
    then ok compress_none
    else if lowers_to method "gzip"
    then ok compress_gzip
    else if lowers_to method "deflate"
    then ok compress_deflate
    else err (unsupported_compress_method m.api.compress_method)

-- `findRoute`: the first route of the path.
unfoldable pub find_in : String → List ApiRoute → Outcome CommandError ApiRoute
find_in path [] = err (path_not_found path)
find_in path (route ∷ routes) =
    let rest = find_in path routes in if str_eq route.path path then ok route else rest

unfoldable pub find_route : Manifest → (path : String) → Outcome CommandError ApiRoute
unfolding find_in
find_route m path = find_in path m.api.interfaces

-- `validateResponseCompression`.
unfoldable pub validate_response_compression :
    ApiRoute → (compress_method : String) (compress_flag : ℕ) → Outcome CommandError (Unit {0})
validate_response_compression route compress_method compress_flag =
    if route.compressed
    then (if names_none compress_method
        then err (compress_method_not_set route.path)
        else if compress_flag == compress_none
        then err (response_not_compressed route.path)
        else ok tt)
    else ok tt
