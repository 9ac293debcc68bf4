-- ===== src/Cipher.antt =====
-- The UDP-layer cipher: KcpOutput::decode of src/kcp/kcp_module/kcp.rs, which the listener repeats.
pub mod Laws
mod Xor
use kcp_server.Base.{
  ℕ, zero, suc, ◌+◌, Option, none, some, List, [], ◌∷◌, leb, if◌then◌else◌, length, is_empty,
  bit_xor,
}
use kcp_server.Segment.{Bytes}

-- `key[j]`. Rust panics where the index is out of range; here it reads 0, which is never done: each byte
-- is read with the key byte of its place modulo the key's length (Cipher/Laws).
abbrev pub key_at : Bytes → ℕ → ℕ
key_at [] j = 0
key_at (b ∷ key) zero = b
key_at (b ∷ key) (suc j) = key_at key j

-- The loop `for item in data`, with the index `j` that returns to 0 at the key's end.
unfoldable pub xor_from : Bytes → ℕ → Bytes → Bytes
xor_from key j [] = []
xor_from key j (b ∷ bytes) =
    bit_xor b (key_at key j) ∷ xor_from key (if leb (length key) (j + 1) then 0 else j + 1) bytes

unfoldable pub decode : Option Bytes → Bytes → Bytes
unfolding xor_from
decode none bytes = bytes
decode (some key) bytes = if is_empty key then bytes else xor_from key 0 bytes
