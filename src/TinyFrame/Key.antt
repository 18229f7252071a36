-- ===== src/TinyFrame/Key.antt =====
-- src/tiny_frame.rs: the process-wide key cell, `OnceCell<Option<[u8; KEY_LEN]>>`.
use proto.Base.{
  ℕ, Option, none, some, List, Outcome, ok, panicked, key_already_configured, key_not_configured,
  key_is_none,
}

abbrev pub KeyCell : Type 0
KeyCell = Option (Option (List ℕ))

-- The cell before anything has set it.
abbrev pub unset : KeyCell
unset = none

-- `fn set_encrypt_key`: a second call panics. The result is the cell.
unfoldable pub set_encrypt_key : {E : Type 0} → Option (List ℕ) → KeyCell → Outcome E KeyCell
set_encrypt_key key none = ok (some key)
set_encrypt_key key (some old) = panicked key_already_configured

-- `fn require_encrypt_key`.
unfoldable pub require_encrypt_key : {E : Type 0} → KeyCell → Outcome E (List ℕ)
require_encrypt_key none = panicked key_not_configured
require_encrypt_key (some none) = panicked key_is_none
require_encrypt_key (some (some key)) = ok key
