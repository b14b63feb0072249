-- ===== src/Auth.antt =====
-- The choice of the private keys in adb_auth_host.c: `adb_auth_nextkey` over the list of keys.
pub mod Keys
use pax_linux.Base.{ℕ, List, [], ◌∷◌, Option, none, some, ◌==◌, if◌then◌else◌}

-- `list_head`.
pub first_key : List ℕ → Option ℕ
first_key [] = none
first_key (k ∷ keys) = some k

-- The key behind `current`; none behind the last one, or where `current` is not on the list.
pub key_after : ℕ → List ℕ → Option ℕ
unfolding first_key
key_after current [] = none
key_after current (k ∷ keys) =
    let rest = key_after current keys in if k == current then first_key keys else rest

unfoldable pub adb_auth_nextkey : List ℕ → Option ℕ → Option ℕ
unfolding key_after
adb_auth_nextkey keys none = first_key keys
adb_auth_nextkey keys (some current) = key_after current keys
