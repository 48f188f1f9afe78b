-- ===== src/Crypto.antt =====
-- What the program takes from OpenSSL and mbedtls: parameters of the model, with no laws of their own;
-- and what src/platform_posix.c makes of the DH computation.
use espconnect.Common.{ℕ, ◌-◌, [], ◌++◌, Option, none, some, length, replicate, Bytes}

pub record Crypto : Type 0 where
  -- platform_sha1 and platform_hmac_sha1 (key, data): 20 bytes.
  pub sha1 : Bytes → Bytes
  pub hmac_sha1 : Bytes → Bytes → Bytes
  -- platform_pbkdf2_sha1 (password, salt, iterations, length).
  pub pbkdf2_sha1 : Bytes → Bytes → ℕ → ℕ → Bytes
  -- platform_aes_ctr128 (key, iv, data) and platform_aes_ecb_decrypt192 (key, data).
  pub aes_ctr128 : Bytes → Bytes → Bytes → Bytes
  pub aes_ecb_decrypt192 : Bytes → Bytes → Bytes
  -- DH_compute_key (private key, peer's key): `none` is a negative result, else the bytes of the
  -- shared number without its leading zeros.
  pub dh_compute_key : Bytes → Bytes → Option Bytes
  -- platform_base64_decode (text, capacity) and platform_base64_encode (bytes, capacity).
  pub base64_decode : Bytes → ℕ → Bytes
  pub base64_encode : Bytes → ℕ → Bytes

-- platform_dh_compute_shared: the shared number in 96 bytes, filled up with zeros on the left, or no
-- bytes where the computation failed.
unfoldable pub compute_shared : Crypto → Bytes → Bytes → Bytes
compute_shared crypto priv peer = elim (crypto.dh_compute_key priv peer) [
  | none ↦ []
  | some raw ↦ replicate (96 - length raw) 0 ++ raw
]
