-- ===== src/Zeroconf/Blob.antt =====
-- process_blob of src/zeroconf.c: from the text of the blob to the credentials. Allocation never
-- fails in the model. The digests and ciphers are parameters.
pub mod Chain
pub mod Numbers
pub mod Checked
pub mod Sealed
pub mod Credentials
pub mod Opened
mod Tests
use espconnect.Common.{
  ℕ, zero, suc, ◌+◌, ◌-◌, ◌*◌, ◌%◌, ◌^◌, Bool, true, false, not, List, [], ◌∷◌, ◌++◌, Option, none,
  some, bit_and, bit_or, bit_xor, length, get_or, set, take, drop, replicate, Bytes, codes,
  same_bytes, ltb, leb, ◌==◌, if◌then◌else◌,
}
use espconnect.Crypto.{Crypto}

-- read_varint: the value and the next position. It takes two bytes at most, and the second one with
-- its top bit.
pub read_varint : Bytes → ℕ → ℕ → ℕ × ℕ
read_varint xs pos max_len =
    let lo = get_or xs pos 0 in
    let hi = get_or xs (pos + 1) 0 in
    if leb max_len pos
    then (0, pos)
    else if bit_and lo 0x80 == 0
    then (lo, pos + 1)
    else if leb max_len (pos + 1)
    then (bit_and lo 0x7F, pos + 1)
    else (bit_or (bit_and lo 0x7F) (hi * 2 ^ 7), pos + 2)

-- for (i = 0; i < n && i + 16 < n; i++) on a block of `n` bytes, with `left` rounds left.
pub xor_loop : ℕ → ℕ → ℕ → Bytes → Bytes
xor_loop n zero i blob = blob
xor_loop n (suc left) i blob =
    xor_loop n left (i + 1)
      (set blob (n - i - 1) (bit_xor (get_or blob (n - i - 1) 0) (get_or blob (n - i - 17) 0)))

pub xor_blocks : ℕ → Bytes → Bytes
xor_blocks n blob = xor_loop n (n - 16) 0 blob

-- `fail n` is the result -n.
pub data Result {ℓ} (A : Type ℓ) : Type ℓ where
  done : A → Result A
  fail : ℕ → Result A

infixl 5 ◌>>=◌ ◌>>◌
abbrev ◌>>=◌ {ℓ κ} : {A : Type ℓ} {B : Type κ} → Result A → (A → Result B) → Result B
done a >>= f = f a
fail n >>= f = fail n

abbrev ◌>>◌ {ℓ κ} : {A : Type ℓ} {B : Type κ} → Result A → Result B → Result B
r >> k = r >>= λ _. k

abbrev guard : Bool → ℕ → Result (Unit {0})
guard true n = done tt
guard false n = fail n

-- What the function stores: auth_data_b64 without its NUL, and auth_type.
pub record Auth : Type 0 where
  pub auth_data : Bytes
  pub auth_type : ℕ

-- AES-192 key: SHA-1 of the PBKDF2 output, and the number 20 in four bytes.
pub ecb_key : Crypto → Bytes → Bytes → Bytes
ecb_key crypto username device_id =
    crypto.sha1 (crypto.pbkdf2_sha1 (crypto.sha1 device_id) username 256 20)
    ++ (0 ∷ 0 ∷ 0 ∷ 0x14 ∷ [])

-- Steps 1 to 3: the outer blob, its MAC and the text under it.
pub open_blob : Crypto → Bytes → Bytes → Result Bytes
open_blob crypto blob_b64 shared_secret = do
  let blob = crypto.base64_decode blob_b64 8192
  guard (leb 36 (length blob)) 1
  let iv = take 16 blob
  let encrypted = take (length blob - 36) (drop 16 blob)
  let checksum = drop (length blob - 20) blob
  let base_key = take 16 (crypto.sha1 shared_secret)
  let checksum_key = crypto.hmac_sha1 base_key (codes "checksum")
  let encryption_key = crypto.hmac_sha1 base_key (codes "encryption")
  guard (same_bytes (crypto.hmac_sha1 checksum_key encrypted) checksum) 2
  done (crypto.aes_ctr128 (take 16 encryption_key) iv encrypted)

-- Step 7: the three fields by position; the tags are not looked at.
pub parse_auth : Bytes → ℕ → ℕ → Result Auth
parse_auth inner n auth_b64_size = do
  guard (ltb 0 n) 4
  let (name_len, p1) = read_varint inner 1 n
  let p2 = p1 + name_len
  guard (ltb p2 n) 4
  let (auth_type, p3) = read_varint inner (p2 + 1) n
  guard (ltb p3 n) 4
  let (ad_len, p4) = read_varint inner (p3 + 1) n
  guard (leb (p4 + ad_len) n) 4
  done (record {
    auth_data =
        take (if leb auth_b64_size ad_len then auth_b64_size - 1 else ad_len) (drop p4 inner);
    auth_type = auth_type;
  })

pub process_blob : Crypto → Bytes → Bytes → Bytes → Bytes → ℕ → Result Auth
process_blob crypto blob_b64 username device_id shared_secret auth_b64_size = do
  text ← open_blob crypto blob_b64 shared_secret
  let inner = crypto.base64_decode text 8192
  let n = length inner
  guard (ltb 0 n) 3
  let padded = inner ++ replicate ((16 - n % 16) % 16) 0
  let plain = crypto.aes_ecb_decrypt192 (ecb_key crypto username device_id) padded
  parse_auth (xor_blocks n plain) n auth_b64_size
