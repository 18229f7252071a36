-- ===== src/Go/Frame/Key.antt =====
-- tinyframe/frame.go: the process-wide key, `encryptKey` and `encryptKeySet` behind a mutex, each
-- function one section under it. Go keeps the pointer to the key that it was given; the repository
-- never writes to a key that it has set.
use proto.Base.{
  ℕ, Bool, true, false, Option, none, some, List, Outcome, ok, panicked, key_not_configured,
  key_is_none,
}

pub record KeyState : Type 0 where
  pub encrypt_key : Option (List ℕ)
  pub encrypt_key_set : Bool

-- The variables at the start of the program.
abbrev pub initial : KeyState
initial = record { encrypt_key = none; encrypt_key_set = false }

-- `SetEncryptKey`.
unfoldable pub set_encrypt_key : Option (List ℕ) → KeyState → KeyState
set_encrypt_key key k = record { encrypt_key = key; encrypt_key_set = true }

-- `ResetEncryptKey`.
unfoldable pub reset_encrypt_key : KeyState → KeyState
reset_encrypt_key k = record { encrypt_key = none; encrypt_key_set = false }

abbrev non_nil : {E : Type 0} → Option (List ℕ) → Outcome E (List ℕ)
non_nil none = panicked key_is_none
non_nil (some key) = ok key

abbrev pub required : {E : Type 0} → Bool → Option (List ℕ) → Outcome E (List ℕ)
required false key = panicked key_not_configured
required true key = non_nil key

-- `requireEncryptKey`.
unfoldable pub require_encrypt_key : {E : Type 0} → KeyState → Outcome E (List ℕ)
require_encrypt_key k = required k.encrypt_key_set k.encrypt_key
