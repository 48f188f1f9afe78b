-- ===== src/Zeroconf/Blob/Tests.antt =====
-- Witnesses for process_blob, with libraries that do nothing.
use espconnect.Common.{
  ◌≡◌, ◌≤◌, ◌<◌, ◌+◌, refl, [], ◌∷◌, ◌++◌, some, length, replicate, Bytes, codes, arith,
}
use espconnect.Crypto.{Crypto}
use espconnect.Proto.Varint.{last}
use espconnect.Zeroconf.Blob.{
  done, process_blob, open_blob, parse_auth, read_varint, xor_loop, xor_blocks,
}
use espconnect.Zeroconf.Blob.Sealed.{length-chain}
use espconnect.Zeroconf.Blob.Credentials.{IsCredentials}
use espconnect.Zeroconf.Blob.Opened.{IsCodec, inner_text, seal, process_blob-seal}
use espconnect.Zeroconf.Blob.Checked.{checksum_part, process_blob-checked}

abbrev block : Bytes
block = 1 ∷ 2 ∷ replicate 15 7

-- Libraries that do nothing: texts are their own base64, a digest is 20 zeros.
abbrev idle : Crypto
idle = record {
  sha1 = λ _. replicate 20 0;
  hmac_sha1 = λ _ _. replicate 20 0;
  pbkdf2_sha1 = λ _ _ _ n. replicate n 0;
  aes_ctr128 = λ _ _ d. d;
  aes_ecb_decrypt192 = λ _ d. d;
  dh_compute_key = λ _ _. some (5 ∷ []);
  base64_decode = λ t _. t;
  base64_encode = λ b _. b;
}

-- 16 bytes of IV, the fields of a name, a type and the data, and the checksum.
abbrev fields : Bytes
fields = 0x0a ∷ 1 ∷ b'u' ∷ 0x10 ∷ 2 ∷ 0x1a ∷ 3 ∷ codes "abc"

abbrev blob : Bytes
blob = replicate 16 0 ++ (fields ++ replicate 20 0)

process_blob-checked_example :
    (36 ≤ length blob) × (replicate 20 0 ≡ checksum_part blob) × (3 < 4096)
unfolding process_blob open_blob parse_auth read_varint xor_blocks xor_loop
process_blob-checked_example =
    process_blob-checked idle blob (codes "u") (codes "d") (codes "s") 4096
      (record { auth_data = codes "abc"; auth_type = 2 }) (omega arith) refl

-- The same fields with six bytes behind them, in one block.
abbrev block_of_fields : Bytes
block_of_fields = fields ++ replicate 6 0

block_of_fields-IsCredentials : IsCredentials (codes "u") (codes "abc") 2 block_of_fields
block_of_fields-IsCredentials = record {
  name_field = 0x0a ∷ 1 ∷ b'u' ∷ [];
  type_field = 0x10 ∷ 2 ∷ [];
  data_field = 0x1a ∷ 3 ∷ codes "abc";
  pad = replicate 6 0;
  parts = refl;
  name_valid = record {
    tag_bytes = 0x0a ∷ [];
    length_bytes = 1 ∷ [];
    parts = refl;
    tag_valid = last 10 (omega arith);
    length_valid = last 1 (omega arith);
  };
  type_valid = record {
    tag_bytes = 0x10 ∷ [];
    value_bytes = 2 ∷ [];
    parts = refl;
    tag_valid = last 16 (omega arith);
    value_valid = last 2 (omega arith);
  };
  data_valid = record {
    tag_bytes = 0x1a ∷ [];
    length_bytes = 3 ∷ [];
    parts = refl;
    tag_valid = last 26 (omega arith);
    length_valid = last 3 (omega arith);
  };
  name_short = omega arith;
  type_small = omega arith;
  data_short = omega arith;
  whole_blocks = refl;
}

idle-IsCodec : IsCodec idle (λ bs. bs) (λ key bs. bs)
idle-IsCodec = record {
  decodes = λ bs cap h. refl;
  hmac_length = λ key bs. refl;
  ctr_length = λ key iv bs. refl;
  ctr_twice = λ key iv bs. refl;
  ecb_length = λ key bs. refl;
  ecb_undone = λ key bs h. refl;
}

inner_small :
    length (inner_text idle (λ bs. bs) (λ key bs. bs) (codes "u") (codes "d") block_of_fields) + 36
    ≤ 8192
unfolding inner_text
inner_small = omega (arith, length-chain block_of_fields)

process_blob-seal_example :
    process_blob idle
      (seal idle
        (λ bs. bs)
        (λ key bs. bs)
        (codes "s")
        (replicate 16 7)
        (inner_text idle (λ bs. bs) (λ key bs. bs) (codes "u") (codes "d") block_of_fields))
      (codes "u")
      (codes "d")
      (codes "s")
      4096
    ≡ done (record { auth_data = codes "abc"; auth_type = 2 })
process_blob-seal_example =
    process_blob-seal idle (λ bs. bs) (λ key bs. bs) (codes "u") (codes "d") (codes "s")
      (replicate 16 7) block_of_fields (codes "u") (codes "abc") 2 4096 idle-IsCodec
      block_of_fields-IsCredentials refl (omega arith) inner_small (omega arith)
