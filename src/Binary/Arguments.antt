-- ===== src/Binary/Arguments.antt =====
-- src/bin/prom_proxy.rs: what the command line is read as.
pub mod Secretkey
use proto.Base.{
  ℕ, ◌==◌, ==_iff, ◌≡◌, ◌≢◌, ◌⊎◌, inl, inr, Bool-cases, str_eq, eq_iff, arith, none, refl, ap, ◌∙◌,
  sym, if◌then◌else◌, Bool, true, false, err, Option, some, List, [], ◌∷◌, length, All, String, ok,
  >>=-eq-ok, map_err, map_err-eq-ok, ok-injective,
}
use proto.TinyFrame.Types.{IsU8, key_len}
use proto.Binary.Hex.{hex_decode}
use proto.Binary.Hex.Bounds.{hex_decode-IsU8}
use proto.Binary.Hex.Inverse.{hex_text, hex_decode-hex_text}
use mathlib.Core.Path.{subst}
use proto.Binary.{
  Exit, Given, nothing_given, invalid_secretkey, flag_of, set_flag, parse_loop, or_usage,
  parsed_or_exit, Settings, parse_args,
}
use proto.Binary.Arguments.Secretkey.{LastGiven, NotGiven, chosen_text}

module _ {Addr : Type 0} (parse_addr : String → Option Addr) where
  -- All four options, in the order of the usage text, are taken as they are given, whatever the
  -- environment is: a key of 32 bytes, written as lower-case digits, is the key.
  pub parse_args-hex_text :
      (listen url redis : String) (key : List ℕ) (addr : Addr) (env : String → Option String)
      → parse_addr listen ≡ some addr
      → length key ≡ key_len
      → All IsU8 key
      → parse_args parse_addr
          ("--listen"
            ∷ listen
            ∷ "--prometheus-url"
            ∷ url
            ∷ "--redis-url"
            ∷ redis
            ∷ "--secretkey"
            ∷ hex_text key
            ∷ [])
          env
        ≡ ok (record { listen = addr; prometheus_url = url; redis_url = redis; key = key })
  unfolding parse_args parse_loop flag_of set_flag
  parse_args-hex_text listen url redis key addr env known size bytes =
      rw (known, hex_decode-hex_text key bytes, (==_iff (length key) key_len).1 size) refl

  measured :
      (b : Bool) (settings : Settings Addr) (problem : Exit) (result : Settings Addr)
      → (if b then ok settings else err problem) ≡ ok result
      → (b ≡ true) × (settings ≡ result)
  measured true settings problem result e = (refl, ok-injective e)
  measured false settings problem result e = cc

  -- Whatever the arguments and the environment are: a key that is read has 32 bytes, and is what a
  -- hexadecimal text stands for. That text is the value of an option `--secretkey`, behind which there
  -- is no other one, or there is no option `--secretkey`, and it is the variable PROM_PROXY_SECRETKEY.
  -- (Options and values take turns: a value that reads `--secretkey` is not an option.)
  pub parse_args-key :
      (args : List String) (env : String → Option String) (settings : Settings Addr)
      → parse_args parse_addr args env ≡ ok settings
      → (length settings.key ≡ key_len)
        × All IsU8 settings.key
        × (text : String) × (hex_decode text ≡ ok settings.key)
        × (LastGiven text args ⊎ (NotGiven args × (env "PROM_PROXY_SECRETKEY" ≡ some text)))
  unfolding parse_args
  parse_args-key args env settings e =
      let (given, looped, e₁) = >>=-eq-ok (parse_loop args nothing_given) _ e in
      let (l, _, e₂) = >>=-eq-ok (or_usage given.listen (env "PROM_PROXY_LISTEN")) _ e₁ in
      let (_, _, e₃) = >>=-eq-ok (or_usage given.prometheus_url (env "PROM_PROXY_URL")) _ e₂ in
      let (_, _, e₄) = >>=-eq-ok (or_usage given.redis_url (env "PROM_PROXY_REDIS_URL")) _ e₃ in
      let (text, chosen, e₅) =
        >>=-eq-ok (or_usage given.secretkey (env "PROM_PROXY_SECRETKEY")) _ e₄ in
      let (_, _, e₆) = >>=-eq-ok (parsed_or_exit l (parse_addr l)) _ e₅ in
      let (raw, decoded, e₇) = >>=-eq-ok (map_err invalid_secretkey (hex_decode text)) _ e₆ in
      let hex = map_err-eq-ok invalid_secretkey (hex_decode text) decoded in
      let (size, same) = measured (length raw == key_len) _ _ settings e₇ in
      let key : raw ≡ settings.key = ap (λ (r : Settings Addr). r.key) same in
      (
        ap length (sym key) ∙ (==_iff (length raw) key_len).0 size,
        subst (All IsU8) key (hex_decode-IsU8 text raw hex).1,
        text,
        hex ∙ ap ok key,
        chosen_text args given text (env "PROM_PROXY_SECRETKEY") looped chosen,
      )
