-- ===== src/Go/Command/Main.antt =====
-- cmd/tframe/main.go: the process, from its arguments to its exit code. Package flag is a
-- parameter: `manifest_path` is the option's value, and `args` are the arguments behind the options.
use proto.Base.{ℕ, List, [], ◌∷◌, String, str_eq, if◌then◌else◌, Outcome, ok, err, panicked, ◌>>=◌}
use proto.Base.Exec
use proto.Base.Exec.{Exec}
use proto.Go.Frame.Types.{Error}
use proto.Go.Frame.Codec.{Codec}
use proto.Go.Command.Manifest.{CommandError, Manifest, default_manifest_path, load_manifest}
use proto.Go.Command.Get.{Url, World, do_get}

-- `os.Exit` with a code, or the end of `main`.
pub data Exit : Type 0 where
  done usage : Exit
  failed : CommandError → Exit

abbrev pub exit_code : Exit → ℕ
exit_code done = 0
exit_code usage = 2
exit_code (failed e) = 1

-- What `main` does with a result.
abbrev pub finish : Outcome CommandError (Unit {0}) × World → Outcome (Unit {0}) Exit × World
finish (ok t, w) = (ok done, w)
finish (err e, w) = (ok (failed e), w)
finish (panicked p, w) = (panicked p, w)

module _ (g : Codec) (nonce : Outcome Error (List ℕ)) (user_home_dir : Outcome String String)
    (join : List String → String) (read_file : String → Outcome String (List ℕ))
    (unmarshal : List ℕ → Outcome String Manifest) (parse : String → Outcome String Url)
    (dial : String → Outcome Error (Unit {0})) (tx_id : ℕ) where
  -- `main` once it has its arguments.
  unfoldable pub get : (manifest_path raw_url : String) → Exec CommandError World (Unit {0})
  get manifest_path raw_url w =
      let path : Outcome CommandError String =
        if str_eq manifest_path ""
        then default_manifest_path user_home_dir join
        else ok manifest_path in
      Exec.continue (path >>= load_manifest read_file unmarshal)
        (do_get g nonce parse dial tx_id raw_url) w

  -- `main`.
  unfoldable pub main :
      (manifest_path : String) (args : List String) (w : World) → Outcome (Unit {0}) Exit × World
  main manifest_path (command ∷ raw_url ∷ []) w =
      if str_eq command "get" then finish (get manifest_path raw_url w) else (ok usage, w)
  main manifest_path _ w = (ok usage, w)
