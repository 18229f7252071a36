-- ===== src/Go/Command/Get/Unsent.antt =====
-- cmd/tframe/client.go: what is checked before a server hears of the request.
use proto.Base.{
  ℕ, ◌<◌, ◌≡◌, ◌≢◌, refl, sym, ap, ◌∙◌, ◌⊎◌, inl, inr, true, List, ◌∷◌, ◌++◌, length, All, String,
  Outcome, ok, err, panicked, map_err, map_err-eq-ok,
}
use proto.Base.Exec.{Exec, continue}
use proto.Go.Frame.Types.{Error}
use proto.Go.Frame.Codec.{Codec}
use proto.Go.Command.Manifest.{
  ApiRoute, Manifest, CommandError, connect, bad_secret_key, find_route, parse_secret_key,
  names_none, compress_method_flag,
}
use mathlib.Core.Path.{subst}
use proto.Base.Integers.{pos}
use proto.Binary.Hex.{hex_decode}
use proto.Go.Frame.Types.{key_len}
use proto.Go.Hex.{parse_secret_key_hex}
use proto.Go.Hex.Accepts.{parse_secret_key_hex-hex_decode}
use proto.Go.Command.Get.Checks.{
  Packs, parse_tcp_url-eq-ok, find_in-eq-ok, compress_method_flag-eq-ok, compression_set-eq-ok,
}
use proto.Go.Command.Get.{
  Url, World, asked_path, parse_tcp_url, type_in_range, compression_set, set_key, do_get,
}
use proto.Go.Command.Get.Stages.{type_in_range-eq-ok}

-- Neither the connection nor the output has changed.
abbrev pub Untouched : World → World → Type 0
Untouched w w' = (w'.request ≡ w.request) × (w'.output ≡ w.output)

-- A step that does not come off leaves things as they were.
step-Untouched :
    {A : Type 0} (r : Outcome CommandError A) (f : A → Exec CommandError World (Unit {0}))
    (w v : World) (P : Type 0)
    → Untouched w v
    → ((a : A) → r ≡ ok a → Untouched w (f a v).1 ⊎ P)
    → Untouched w (continue r f v).1 ⊎ P
step-Untouched (ok a) f w v P same next = next a refl
step-Untouched (err e) f w v P same next = inl same
step-Untouched (panicked p) f w v P same next = inl same

-- What has been found before the server hears of the request.
pub record Cleared (parse : String → Outcome String Url) (dial : String → Outcome Error (Unit {0}))
    (raw_url : String) (m : Manifest) : Type 0 where
  pub url : Url
  pub parsed : parse raw_url ≡ ok url
  pub scheme : url.scheme ≡ "tcp"
  pub has_host : url.host ≢ ""
  -- The first route of the path.
  pub route : ApiRoute
  pub earlier : List ApiRoute
  pub later : List ApiRoute
  pub routes : m.api.interfaces ≡ earlier ++ route ∷ later
  pub routed : route.path ≡ asked_path url.path
  pub first : All (λ (r : ApiRoute). r.path ≢ asked_path url.path) earlier
  pub message_type : ℕ
  pub typed : route.message_type ≡ pos message_type
  pub five_bits : message_type < 32
  pub key : List ℕ
  pub key_size : length key ≡ key_len
  pub key_is : hex_decode m.api.secret_key ≡ ok key
  pub method : (names_none m.api.compress_method ≡ true) ⊎ Packs m
  pub packs : route.compressed ≡ true → Packs m
  pub dialled : dial url.host ≡ ok tt

-- The checks that passed, one by one.
cleared :
    (parse : String → Outcome String Url) (dial : String → Outcome Error (Unit {0}))
    (raw_url : String) (m : Manifest) (host path : String) (route : ApiRoute) (message_type : ℕ)
    (key : List ℕ) (flag : ℕ)
    → parse_tcp_url parse raw_url ≡ ok (host, path)
    → find_route m path ≡ ok route
    → type_in_range route.message_type ≡ ok message_type
    → parse_secret_key m ≡ ok key
    → compress_method_flag m ≡ ok flag
    → compression_set route flag ≡ ok tt
    → dial host ≡ ok tt
    → Cleared parse dial raw_url m
unfolding find_route parse_secret_key
cleared parse dial raw_url m host path route message_type key flag parsed routed ranged keyed
      flagged set dialled =
    let (url, found, tcp, has_host, host_is, path_is) =
      parse_tcp_url-eq-ok parse raw_url host path parsed in
    let (earlier, later, whole, named, others) = find_in-eq-ok path m.api.interfaces route routed in
    let (typed, five_bits) = type_in_range-eq-ok route.message_type message_type ranged in
    let (size, hex) =
      parse_secret_key_hex-hex_decode m.api.secret_key key
        (map_err-eq-ok bad_secret_key (parse_secret_key_hex m.api.secret_key) keyed) in
    let method = compress_method_flag-eq-ok m flag flagged in
    record {
      url = url;
      parsed = found;
      scheme = tcp;
      has_host = has_host;
      route = route;
      earlier = earlier;
      later = later;
      routes = whole;
      routed = named ∙ path_is;
      first = subst (λ p. All (λ (r : ApiRoute). r.path ≢ p) earlier) path_is others;
      message_type = message_type;
      typed = typed;
      five_bits = five_bits;
      key = key;
      key_size = size;
      key_is = hex;
      method = elim method [ inl n ↦ inl n.0 | inr p ↦ inr p ];
      packs = λ asked. elim method [
        | inl n ↦ absurd (compression_set-eq-ok route flag set asked n.1)
        | inr p ↦ p
      ];
      dialled = ap dial (sym host_is) ∙ dialled;
    }

module _ (g : Codec) (nonce : Outcome Error (List ℕ)) where
  -- Whatever comes of a `tframe get`: nothing is sent and nothing is printed unless the URL is one of
  -- scheme tcp with a host, the manifest's first route with its path has a type below 32, the key is
  -- one of 32 bytes, the proxy's `hex_decode` reads the same key, the compression method is none,
  -- gzip or deflate, and one of the last two where the route asks for compression, and the host was
  -- dialled without an error.
  pub do_get-Untouched :
      (parse : String → Outcome String Url) (dial : String → Outcome Error (Unit {0})) (tx : ℕ)
      (raw_url : String) (m : Manifest) (w : World)
      → Untouched w (do_get g nonce parse dial tx raw_url m w).1 ⊎ Cleared parse dial raw_url m
  unfolding do_get
  do_get-Untouched parse dial tx raw_url m w =
      let P = Cleared parse dial raw_url m in
      step-Untouched (parse_tcp_url parse raw_url) _ w w P (refl, refl)
        λ (host, path) parsed.
          step-Untouched (find_route m path) _ w w P (refl, refl)
            λ route routed.
              step-Untouched (type_in_range route.message_type) _ w w P (refl, refl)
                λ message_type ranged.
                  step-Untouched (parse_secret_key m) _ w w P (refl, refl)
                    λ key key_is.
                      let v : World = (set_key key w).1 in
                      step-Untouched (compress_method_flag m) _ w v P (refl, refl)
                        λ flag flag_is.
                          step-Untouched (compression_set route flag) _ w v P (refl, refl)
                            λ _ compression.
                              step-Untouched (map_err connect (dial host)) _ w v P (refl, refl)
                                λ _ dialled. inr (
                                  cleared parse dial raw_url m host path route message_type key flag
                                    parsed routed ranged key_is flag_is compression
                                    (map_err-eq-ok connect (dial host) dialled))
