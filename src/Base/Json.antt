-- ===== src/Base/Json.antt =====
-- serde_json, a parameter of the development: a `Coder` for each type that the program writes or
-- reads as JSON.
use proto.Base.Results.{Outcome, ok}
use Prim.Native.String.{String}
use mathlib.Core.Path.{◌≡◌}

-- `serde_json::Error`, with its text.
pub data JsonError : Type 0 where
  json_error : String → JsonError

-- `serde_json::to_vec` or `to_string`, and `from_slice` or `from_str`, at one type.
pub record Coder (A B : Type 0) : Type 0 where
  pub encode : A → Outcome JsonError B
  pub decode : B → Outcome JsonError A

-- What was written is read back.
pub record CoderLaws {A B : Type 0} (c : Coder A B) : Type 0 where
  pub decode_encode : (a : A) (b : B) → c.encode a ≡ ok b → c.decode b ≡ ok a
