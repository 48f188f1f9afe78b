-- ===== src/Zeroconf/Blob/Opened.antt =====
-- What process_blob makes of a blob that a phone has sealed.
use espconnect.Common.{
  ℕ, ◌+◌, ◌-◌, ◌%◌, ◌≤◌, ◌<◌, ◌≡◌, refl, sym, ap, ◌∙◌, true, [], ◌∷◌, ◌++◌, append_assoc,
  append-nil, length, length-append, take, drop, take-append_length, drop-append_length, Bytes,
  codes, same_bytes, ltb, leb, arith,
}
use espconnect.Crypto.{Crypto}
use espconnect.Zeroconf.Blob.{done, Auth, ecb_key, open_blob, parse_auth, process_blob}
use espconnect.Zeroconf.Blob.Checked.{checksum_key}
use espconnect.Zeroconf.Blob.Credentials.{
  IsCredentials, IsCredentials-length, parse_auth-IsCredentials,
}
use espconnect.Zeroconf.Blob.Sealed.{chain, length-chain, xor_blocks-chain}

-- What the code takes from the libraries here: the base64 coding of the other end and its AES-192 in ECB
-- mode, which the libraries' decoding and decryption undo.
pub record IsCodec (crypto : Crypto) (encode : Bytes → Bytes) (encrypt : Bytes → Bytes → Bytes)
    : Type 0 where
  pub decodes : (bs : Bytes) (cap : ℕ) → length bs ≤ cap → crypto.base64_decode (encode bs) cap ≡ bs
  pub hmac_length : (key bs : Bytes) → length (crypto.hmac_sha1 key bs) ≡ 20
  pub ctr_length : (key iv bs : Bytes) → length (crypto.aes_ctr128 key iv bs) ≡ length bs
  pub ctr_twice : (key iv bs : Bytes) → crypto.aes_ctr128 key iv (crypto.aes_ctr128 key iv bs) ≡ bs
  pub ecb_length : (key bs : Bytes) → length (encrypt key bs) ≡ length bs
  pub ecb_undone :
      (key bs : Bytes) → length bs % 16 ≡ 0 → crypto.aes_ecb_decrypt192 key (encrypt key bs) ≡ bs

same_bytes_refl : (xs : Bytes) → same_bytes xs xs ≡ true
same_bytes_refl [] = refl
same_bytes_refl (x ∷ xs) = ground (arith, same_bytes_refl xs)

module _ (crypto : Crypto) (encode : Bytes → Bytes) (encrypt : Bytes → Bytes → Bytes) where
  -- The blocks under the outer blob, as text.
  unfoldable pub inner_text : Bytes → Bytes → Bytes → Bytes
  inner_text username device plain = encode (encrypt (ecb_key crypto username device) (chain plain))

  abbrev pub mask_key : Bytes → Bytes
  mask_key secret = take 16 (crypto.hmac_sha1 (take 16 (crypto.sha1 secret)) (codes "encryption"))

  unfoldable pub masked_text : Bytes → Bytes → Bytes → Bytes
  masked_text secret iv text = crypto.aes_ctr128 (mask_key secret) iv text

  -- The outer blob: the IV, the masked text and its MAC.
  unfoldable pub seal : Bytes → Bytes → Bytes → Bytes
  seal secret iv text =
      let masked = masked_text secret iv text in
      encode (iv ++ (masked ++ crypto.hmac_sha1 (checksum_key crypto secret) masked))

  -- An outer blob by its parts.
  opened_parts :
      (blob_b64 secret blob iv masked : Bytes)
      → crypto.base64_decode blob_b64 8192 ≡ blob
      → leb 36 (length blob) ≡ true
      → take 16 blob ≡ iv
      → take (length blob - 36) (drop 16 blob) ≡ masked
      → drop (length blob - 20) blob ≡ crypto.hmac_sha1 (checksum_key crypto secret) masked
      → open_blob crypto blob_b64 secret ≡ done (crypto.aes_ctr128 (mask_key secret) iv masked)
  unfolding open_blob
  opened_parts blob_b64 secret blob iv masked decoded long front middle end =
      let equal = same_bytes_refl (crypto.hmac_sha1 (checksum_key crypto secret) masked) in
      rw (decoded, long) (rw (front, middle, end) (rw equal refl))

  open_blob-seal :
      (secret iv text : Bytes)
      → IsCodec crypto encode encrypt
      → length iv ≡ 16
      → length text + 36 ≤ 8192
      → open_blob crypto (seal secret iv text) secret ≡ done text
  unfolding seal masked_text
  open_blob-seal secret iv text laws l16 fits =
      let masked = masked_text secret iv text in
      let mac = crypto.hmac_sha1 (checksum_key crypto secret) masked in
      let blob = iv ++ (masked ++ mac) in
      let l20 = laws.hmac_length (checksum_key crypto secret) masked in
      let same : length masked ≡ length text = laws.ctr_length (mask_key secret) iv text in
      let len_back = length-append masked mac in
      let len : length blob ≡ 36 + length text =
        omega (arith, length-append iv (masked ++ mac), len_back, l16, l20, same) in
      let behind = drop-append_length iv (masked ++ mac) 16 (sym l16) in
      let middle : take (length blob - 36) (drop 16 blob) ≡ masked =
        ap (take (length blob - 36)) behind
        ∙ take-append_length masked mac (length blob - 36) (omega (arith, len, same)) in
      let regroup : blob ≡ (iv ++ masked) ++ mac = sym (append_assoc iv masked mac) in
      let end : drop (length blob - 20) blob ≡ mac =
        ap (drop (length blob - 20)) regroup
        ∙ drop-append_length (iv ++ masked) mac (length blob - 20)
            (omega (arith, len, same, l16, length-append iv masked)) in
      opened_parts (encode blob) secret blob iv masked (laws.decodes blob 8192 (omega (arith, len)))
        (ground (arith, len)) (take-append_length iv (masked ++ mac) 16 (sym l16)) middle end
      ∙ ap done (laws.ctr_twice (mask_key secret) iv text)

  -- What becomes of the blocks under the text.
  process_parts :
      (blob_b64 username device secret text inner plain : Bytes) (size : ℕ) (a : Auth)
      → open_blob crypto blob_b64 secret ≡ done text
      → crypto.base64_decode text 8192 ≡ inner
      → length inner ≡ length plain
      → 0 < length plain
      → length plain % 16 ≡ 0
      → crypto.aes_ecb_decrypt192 (ecb_key crypto username device) inner ≡ chain plain
      → parse_auth plain (length plain) size ≡ done a
      → process_blob crypto blob_b64 username device secret size ≡ done a
  unfolding process_blob
  process_parts blob_b64 username device secret text inner plain size a opened decoded len pos
        blocks decrypted parsed =
      let some_byte : ltb 0 (length plain) ≡ true = ground arith in
      let full : (16 - length plain % 16) % 16 ≡ 0 = omega arith in
      rw (opened, decoded)
        (rw (len, some_byte)
          (rw (full, append-nil inner) (rw (decrypted, xor_blocks-chain plain) parsed)))

  -- Where a base64 coding and an AES-192 encryption are undone by those of the library, AES-CTR
  -- undoes itself and an HMAC has 20 bytes, process_blob gives back the type and the data of
  -- credentials that the other end has masked, encrypted, put under an IV and a MAC with the same
  -- shared secret, and coded: for a username, type and data below 2^14, plain text of whole blocks, a
  -- blob of at most 8192 bytes and a buffer that takes the data with its NUL.
  pub process_blob-seal :
      (username device secret iv plain name content : Bytes) (t size : ℕ)
      → IsCodec crypto encode encrypt
      → IsCredentials name content t plain
      → length iv ≡ 16
      → length plain ≤ 8192
      → length (inner_text username device plain) + 36 ≤ 8192
      → length content < size
      → process_blob crypto
          (seal secret iv (inner_text username device plain))
          username
          device
          secret
          size
        ≡ done (record { auth_data = content; auth_type = t })
  unfolding inner_text
  process_blob-seal username device secret iv plain name content t size laws c l16 fits room_text
        room =
      let key = ecb_key crypto username device in
      let inner = encrypt key (chain plain) in
      let len = laws.ecb_length key (chain plain) ∙ length-chain plain in
      let whole : length (chain plain) % 16 ≡ 0 =
        omega (arith, length-chain plain, c.whole_blocks) in
      process_parts (seal secret iv (encode inner)) username device secret (encode inner) inner
        plain size _ (open_blob-seal secret iv (encode inner) laws l16 room_text)
        (laws.decodes inner 8192 (omega (arith, len))) len (IsCredentials-length c) c.whole_blocks
        (laws.ecb_undone key (chain plain) whole)
        (parse_auth-IsCredentials plain name content t size c room)
