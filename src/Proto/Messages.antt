-- ===== src/Proto/Messages.antt =====
-- The message builders of src/mercury.c: build_client_hello, build_client_resp and
-- build_login_request. `none` is a write past a buffer.
pub mod Built
mod Tests
use espconnect.Common.{
  ℕ, [], ◌∷◌, Option, none, some, Bytes, codes, u64, ◌==◌, if◌then◌else◌, ◌>>=◌,
}
use espconnect.Proto.{Buf, init, varint, bytes, enum}

-- pb_str: the bytes of a C string, which a literal or a caller gives without its NUL.
pub str : Buf → ℕ → Bytes → Option Buf
str b fn s = bytes b fn s

-- The build_info of the ClientHello, then its login_crypto_hello and its feature set.
pub build_info : Option Buf
build_info = do b1 ← enum (init 64) 10 0; b2 ← enum b1 30 2; varint b2 40 0x10800000000

pub crypto_hello : Bytes → Option Buf
crypto_hello dh_pub = do
  b1 ← bytes (init 256) 10 dh_pub
  dh ← varint b1 20 1
  bytes (init 32) 10 dh.bytes

pub build_client_hello : Bytes → Bytes → Option Buf
build_client_hello dh_pub nonce = do
  bi ← build_info
  o1 ← bytes (init 512) 10 bi.bytes
  o2 ← enum o1 30 0
  un ← crypto_hello dh_pub
  o3 ← bytes o2 50 un.bytes
  o4 ← bytes o3 60 nonce
  o5 ← bytes o4 70 (0x1E ∷ [])
  fs ← varint (init 16) 1 1
  bytes o5 80 fs.bytes

pub build_client_resp : Bytes → Option Buf
build_client_resp hmac = do
  dh ← bytes (init 32) 10 hmac
  resp ← bytes (init 64) 10 dh.bytes
  bytes (init 128) 10 resp.bytes

-- if (username && username[0] != '\0'): `none` is the null pointer.
pub put_username : Buf → Option Bytes → Option Buf
put_username b none = some b
put_username b (some []) = some b
put_username b (some (c ∷ cs)) = if c == 0 then some b else str b 10 (c ∷ cs)

-- `auth_type` is an int that the enum writer takes as a uint64_t.
pub login_credentials : Bytes → ℕ → Option Bytes → Option Buf
login_credentials auth_data auth_type username = do
  b1 ← put_username (init 256) username
  b2 ← enum b1 20 (u64 auth_type)
  bytes b2 30 auth_data

pub system_info : Bytes → Option Buf
system_info device_id = do
  b1 ← enum (init 128) 10 0
  b2 ← enum b1 60 0
  b3 ← str b2 90 (codes "cspot-player")
  str b3 100 device_id

pub build_login_request : Bytes → ℕ → Option Bytes → Bytes → Option Buf
build_login_request auth_data auth_type username device_id = do
  lc ← login_credentials auth_data auth_type username
  o1 ← bytes (init 512) 10 lc.bytes
  si ← system_info device_id
  o2 ← bytes o1 50 si.bytes
  str o2 70 (codes "cspot-1.1")
