-- ===== src/Go/Frame/Codec.antt =====
-- What tinyframe/frame.go calls of the packages compress/gzip, compress/flate and chacha20poly1305:
-- a parameter of the model.
use proto.Base.{ℕ, List, Option, Outcome}
use proto.Go.Frame.Types.{Error}

pub record Codec : Type 0 where
  -- A writer over a buffer: `Write`, then `Close`.
  pub gzip_write : List ℕ → Outcome Error (List ℕ)
  pub flate_write : List ℕ → Outcome Error (List ℕ)
  -- A reader over a buffer: `io.ReadAll`.
  pub gzip_read : List ℕ → Outcome Error (List ℕ)
  pub flate_read : List ℕ → Outcome Error (List ℕ)
  -- `Seal` and `Open`: key, nonce, message, associated data. A key of 32 bytes is always taken.
  pub seal : List ℕ → List ℕ → List ℕ → List ℕ → List ℕ
  pub open_sealed : List ℕ → List ℕ → List ℕ → List ℕ → Option (List ℕ)
